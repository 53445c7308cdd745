-- ===== src/Web/Reply.antt =====
-- The error responses of PA2/server.c.
use network_systems.Prelude.{
  ◌-◌, Bool, false, List, [], ◌∷◌, ◌++◌, if◌then◌else◌, length, replicate,
}
use network_systems.CString.{Bytes, codes, streq}
use network_systems.Stream.{bufsize}
use network_systems.Machine.{Result, ok, ◌>>=◌, deref, fits}
use network_systems.Web.Request.{HttpRequest}

-- A connection: what was sent, and whether the socket is still open.
pub record Connection : Type 0 where
  pub sent : List Bytes
  pub is_open : Bool

abbrev pub send : Bytes → Connection → Connection
send message c = record c { sent = c.sent ++ message ∷ [] }

abbrev pub close : Connection → Connection
close c = record c { is_open = false }

-- The text in its array of BUFSIZE bytes, all of which are sent.
abbrev pub padded : Bytes → Bytes
padded text = text ++ replicate (bufsize - length text) 0

abbrev pub error_text : Bytes → Bytes → Bytes → Bytes
error_text version status connection =
    version
    ++ codes " "
    ++ status
    ++ codes "\r\nContent-Type: text/plain\r\nContent-Length: 0\r\nConnection: "
    ++ connection
    ++ codes "\r\n\r\n"

-- The common shape of the five functions: send the text, and close on "Connection: close".
unfoldable pub refuse : Bytes → Bytes → Bytes → Connection → Result Connection
refuse version status connection c = do
  text ← fits bufsize (error_text version status connection)
  ok (
      if streq connection (codes "close")
      then close (send (padded text) c)
      else send (padded text) c)

unfoldable pub not_found : HttpRequest → Connection → Result Connection
not_found r c = do
  version ← deref r.version
  connection ← deref r.connection
  refuse version (codes "404 Not Found") connection c

unfoldable pub bad_request : HttpRequest → Connection → Result Connection
bad_request r c = do
  connection ← deref r.connection
  refuse (codes "HTTP/1.0") (codes "400 Bad Request") connection c

unfoldable pub method_not_allowed : HttpRequest → Connection → Result Connection
method_not_allowed r c = do
  version ← deref r.version
  connection ← deref r.connection
  refuse version (codes "405 Method Not Allowed") connection c

unfoldable pub forbidden : HttpRequest → Connection → Result Connection
forbidden r c = do
  version ← deref r.version
  connection ← deref r.connection
  refuse version (codes "403 Forbidden") connection c

unfoldable pub http_version_not_supported : HttpRequest → Connection → Result Connection
http_version_not_supported r c = do
  connection ← deref r.connection
  refuse (codes "HTTP/1.0") (codes "505 HTTP Version Not Supported") connection c
