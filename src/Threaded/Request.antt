-- ===== src/Threaded/Request.antt =====
-- The request of PA2/threaded_server.c, as `parse_request` cuts it with `strtok`: the headers are
-- taken in the order Host, Connection, whatever their names.
use network_systems.Prelude.{◌-◌, ◌==◌, length, take, if◌then◌else◌}
use network_systems.CString.{Bytes, codes, strtok}
use network_systems.Stream.{bufsize}
use network_systems.Machine.{Result, ok, err, overflow, ◌>>=◌, fits}
use network_systems.Web.Request.{HttpRequest}

unfoldable pub scan_request : Bytes → HttpRequest
scan_request line =
    let method = strtok (codes " ") line in
    let uri = strtok (codes " ") method.saved in
    let version = strtok (codes "\r") uri.saved in
    let host_key = strtok (codes " ") version.saved in
    let host = strtok (codes "\r") host_key.saved in
    let connection_key = strtok (codes " ") host.saved in
    let connection = strtok (codes "\r") connection_key.saved in
    record {
      method = method.token;
      uri = uri.token;
      version = version.token;
      connection = connection.token;
      host = host.token;
    }

-- buf[strlen(buf) - 1] = '\0', which is outside of an empty string; temp_buf has room for BUFSIZE
-- bytes.
unfoldable pub read_request : Bytes → Result HttpRequest
read_request text = do
  line ← if length text == 0 then err overflow else ok (take (length text - 1) text)
  copy ← fits bufsize line
  ok (scan_request copy)
