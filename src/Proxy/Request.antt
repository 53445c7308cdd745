-- ===== src/Proxy/Request.antt =====
-- The request to PA3/proxy.c, as `parse_request` cuts it out of three copies of the receive buffer
-- with `strtok`.
use network_systems.Prelude.{
  ◌+◌, ◌-◌, Option, none, some, if◌then◌else◌, ◌==◌, length, take, drop, ◌++◌, [],
}
use network_systems.CString.{
  Bytes, codes, cstr, streq, strtok, strtok_left, strtok_write, strstr, strchr,
}
use network_systems.Stream.{bufsize}
use network_systems.Machine.{Result, ok, ◌>>=◌, fits}
use network_systems.Web.Request.{resume, crlf}

-- HTTP_REQUEST, once the words of the request are cut out.
pub record HttpRequest : Type 0 where
  pub method : Option Bytes
  pub uri : Option Bytes
  pub version : Option Bytes
  pub connection : Option Bytes
  pub hostname : Option Bytes

-- The name of a host without its port: strtok(hostname, ":") ends the string at the colon.
abbrev pub without_port : Option Bytes → Option Bytes
without_port none = none
without_port (some hostname) = some (strtok_left (codes ":") hostname)

-- The fields. The line is in three arrays; `strtok` goes on in the array of the call before, where
-- a header is not found.
unfoldable pub scan_request : Bytes → HttpRequest
scan_request line =
    let method = strtok (codes " ") line in
    let uri = strtok (codes " ") method.saved in
    let version = strtok crlf uri.saved in
    let domain = strtok (codes " ") (resume (strstr line (codes "Host: ")) version.saved) in
    let hostname = strtok crlf domain.saved in
    let host = strtok (codes ":") (resume hostname.token hostname.saved) in
    let connection_type =
      strtok (codes " ") (resume (strstr line (codes "Connection: ")) host.saved) in
    let connection = strtok crlf connection_type.saved in
    record {
      method = method.token;
      uri = uri.token;
      version = version.token;
      connection = connection.token;
      hostname = without_port hostname.token;
    }

-- The three copies have room for BUFSIZE bytes.
unfoldable pub read_request : Bytes → Result HttpRequest
read_request text = do line ← fits bufsize text; ok (scan_request line)

-- A missing connection, by the version.
unfoldable pub default_connection : Bytes → Option Bytes → Option Bytes
default_connection version (some connection) = some connection
default_connection version none =
    if streq version (codes "HTTP/1.1")
    then some (codes "keep-alive")
    else if streq version (codes "HTTP/1.0")
    then some (codes "close")
    else none

-- client_request.file and client_request.portNo
pub record Target : Type 0 where
  pub file : Bytes
  pub port_no : Option Bytes

-- A pointer behind the first match.
abbrev pub behind : Option Bytes → Bytes → Bytes
behind none uri = uri
behind (some slashes) uri = drop 2 slashes

-- The string at the file's pointer, in the buffer after the port was cut out of it.
abbrev pub file_at : Option Bytes → Bytes → Bytes → Bytes
file_at none uri left = []
file_at (some slash) uri left =
    if length slash == 1 then [] else cstr (drop (length uri - length slash + 1) left)

-- The file and, behind a colon, the port. strtok overwrites the slash behind the port.
abbrev pub split_target : Option Bytes → Bytes → Target
split_target none uri = record { file = file_at (strchr uri b'/') uri uri; port_no = none }
split_target (some colon) uri =
    let port = drop 1 colon in
    let left = take (length uri - length port) uri ++ strtok_write (codes "/") port in
    record { file = file_at (strchr uri b'/') uri left; port_no = (strtok (codes "/") port).token }

-- The URI behind "//": the file behind its first slash, and the port behind its first colon.
unfoldable pub target : Bytes → Target
target whole =
    let uri = behind (strstr whole (codes "//")) whole in split_target (strchr uri b':') uri
