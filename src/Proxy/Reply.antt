-- ===== src/Proxy/Reply.antt =====
-- The error responses of PA3/proxy.c.
use network_systems.Prelude.{◌++◌, if◌then◌else◌}
use network_systems.CString.{Bytes, codes, streq}
use network_systems.Stream.{bufsize}
use network_systems.Machine.{Result, ok, ◌>>=◌, deref, fits}
use network_systems.Web.Reply.{Connection, send, close, padded, refuse}
use network_systems.Proxy.Request.{HttpRequest}

unfoldable pub bad_request : HttpRequest → Connection → Result Connection
bad_request r c = do
  connection ← deref r.connection
  refuse (codes "HTTP/1.0") (codes "400 Bad Request") connection c

-- Send a text with all of its array, and close on "Connection: close".
unfoldable pub answer_error : Bytes → Bytes → Connection → Result Connection
answer_error response connection c = do
  text ← fits bufsize response
  ok (
      if streq connection (codes "close")
      then close (send (padded text) c)
      else send (padded text) c)

unfoldable pub forbidden_text : Bytes → Bytes → Bytes
forbidden_text version connection =
    version
    ++ codes " 403 Forbidden\r\nContent-Type: text/plain\r\nContent-Length: 20\r\nConnection: "
    ++ connection
    ++ codes "\r\n\r\nThis site is blocked"

unfoldable pub forbidden : HttpRequest → Connection → Result Connection
forbidden r c = do
  version ← deref r.version
  connection ← deref r.connection
  answer_error (forbidden_text version connection) connection c

unfoldable pub http_version_not_supported : HttpRequest → Connection → Result Connection
http_version_not_supported r c = do
  connection ← deref r.connection
  answer_error
      (codes
        "HTTP/1.0 505 HTTP Version Not Supported\r\nContent-Type: text/plain\r\nContent-Length: 0\r\n\r\n")
      connection c
