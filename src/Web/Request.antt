-- ===== src/Web/Request.antt =====
-- The request of PA2/server.c, as `parse_request` cuts it out of the receive buffer with `strtok`.
use network_systems.Prelude.{◌-◌, Option, none, some, if◌then◌else◌, ◌==◌, length, take}
use network_systems.CString.{Bytes, codes, strtok, strstr}
use network_systems.Stream.{bufsize}
use network_systems.Machine.{Result, ok, err, overflow, ◌>>=◌, fits}

-- HTTP_REQUEST
pub record HttpRequest : Type 0 where
  pub method : Option Bytes
  pub uri : Option Bytes
  pub version : Option Bytes
  pub connection : Option Bytes
  pub host : Option Bytes

-- What stands in arrays that the code reads and has not written: behind a full receive buffer, in
-- `host_buf`, and in the response's contentType.
pub record Garbage : Type 0 where
  pub beyond : Bytes
  pub host_buf : Bytes
  pub content_type : Bytes

-- strtok(pointer, …): a null pointer goes on from the saved place.
abbrev pub resume : Option Bytes → Bytes → Bytes
resume none saved = saved
resume (some s) saved = s

abbrev pub crlf : Bytes
crlf = codes "\r\n"

-- The fields. `host_buf` was never written, so its search finds nothing that the client sent.
unfoldable pub scan_request : Bytes → Bytes → HttpRequest
scan_request host_buf line =
    let method = strtok (codes " ") line in
    let uri = strtok (codes " ") method.saved in
    let version = strtok crlf uri.saved in
    let host_key = strtok (codes " ") (resume (strstr host_buf (codes "Host: ")) version.saved) in
    let host = strtok crlf host_key.saved in
    let connection_key =
      strtok (codes " ") (resume (strstr line (codes "Connection: ")) host.saved) in
    let connection = strtok crlf connection_key.saved in
    record {
      method = method.token;
      uri = uri.token;
      version = version.token;
      connection = connection.token;
      host = host.token;
    }

-- buf[strlen(buf) - 1] = '\0', which is outside of an empty string; the copies to temp_buf and
-- conn_buf have room for BUFSIZE bytes.
unfoldable pub read_request : Garbage → Bytes → Result HttpRequest
read_request g text = do
  line ← if length text == 0 then err overflow else ok (take (length text - 1) text)
  copy ← fits bufsize line
  ok (scan_request g.host_buf copy)
