-- ===== src/Threaded/Service.antt =====
-- `service_request` and `parse_request` of PA2/threaded_server.c, for one thread.
use network_systems.Prelude.{
  ℕ, true, not, ◌||◌, Option, none, some, [], ◌∷◌, ◌++◌, ◌==◌, length, if◌then◌else◌,
}
use network_systems.CString.{Bytes, codes, streq, strchr, contains, decimal}
use network_systems.Machine.{Result, ok, err, overflow, ◌>>=◌, ◌>>◌, fits}
use network_systems.Stream.{bufsize}
use network_systems.Web.Request.{Garbage}
use network_systems.Web.Reply.{Connection, send, close}
use network_systems.Web.Service.{Disk, temp_size, is_some, type_or, received_text}
use network_systems.Threaded.Content.{content_type}
use network_systems.Threaded.Request.{read_request}

-- A thread has sent its page and closed its connection, or has ended the process for all threads.
pub data Thread : Type 0 where
  served : Connection → Thread
  exited : Connection → Thread

-- The common shape of the error functions: the text goes out with its NUL, and exit ends the process.
abbrev pub refuse : Bytes → Connection → Result Thread
refuse response c = ok (exited (close (send (response ++ 0 ∷ []) c)))

abbrev pub not_found : Bytes
not_found =
    codes
      "HTTP/1.1 404 Not Found\r\nContent-Type: text/plain\r\nContent-Length: 18\r\n\r\n404 Page Not Found"

abbrev pub bad_request : Bytes
bad_request =
    codes "HTTP/1.1 400 Bad Request\r\nContent-Type: text/plain\r\nContent-Length: 0\r\n\r\n"

abbrev pub method_not_allowed : Bytes
method_not_allowed =
    codes "HTTP/1.1 405 Method Not Allowed\r\nContent-Type: text/plain\r\nContent-Length: 0\r\n\r\n"

abbrev pub forbidden : Bytes
forbidden = codes "HTTP/1.1 403 Forbidden\r\nContent-Type: text/plain\r\nContent-Length: 0\r\n\r\n"

abbrev pub http_version_not_supported : Bytes
http_version_not_supported =
    codes
      "HTTP/1.1 505 HTTP Version Not Supported\r\nContent-Type: text/plain\r\nContent-Length: 0\r\n\r\n"

-- The index of a directory whose path, up to the name, is given.
abbrev pub index_path : Disk → Bytes → Result Bytes
index_path disk directory = do
  index ← fits temp_size (directory ++ codes "index.html")
  if is_some (disk.file index) then ok index else fits temp_size (directory ++ codes "index.htm")

-- The path that is opened, in an array of TEMP_SIZE bytes.
unfoldable pub relative_path : Disk → Bytes → Result Bytes
relative_path disk uri = do
  path ← fits temp_size (codes "www" ++ uri)
  if streq uri (codes "/")
      then index_path disk (codes "www" ++ uri)
      else if disk.is_directory path
      then index_path disk (codes "www" ++ uri ++ codes "/")
      else ok path

abbrev pub response_header : Bytes → Bytes → ℕ → Bytes
response_header version type fsize =
    version
    ++ codes " 200 OK\r\nContent-Type:"
    ++ type
    ++ codes "\r\nContent-Length:"
    ++ decimal fsize
    ++ codes "\r\n\r\n"

-- The file is open and has an extension. The response's array has room for the header and the
-- payload: the NUL that strcpy writes needs one byte of the payload.
unfoldable pub respond : Garbage → Bytes → Bytes → Bytes → Connection → Result Thread
respond g version extension payload c = do
  header ←
      fits bufsize
        (response_header version (type_or g.content_type (content_type extension)) (length payload))
  response ← if length payload == 0 then err overflow else ok (header ++ payload)
  ok (served (close (send response c)))

-- strcpy(http_response.connection, …)
abbrev pub copy_connection : Option Bytes → Result Bytes
copy_connection none = ok []
copy_connection (some connection) = fits temp_size connection

unfoldable pub service_request :
    Disk → Garbage → Bytes → Bytes → Option Bytes → Connection → Result Thread
service_request disk g version uri connection c = do
  fits temp_size version
  copy_connection connection
  path ← relative_path disk uri
  elim (disk.file path) [
    | none ↦ refuse not_found c
    | some payload ↦ elim (strchr path b'.') [
      | none ↦ refuse not_found c
      | some extension ↦ respond g version extension payload c
    ]
  ]

-- The tests on the words of the request line.
unfoldable pub dispatch :
    Disk → Garbage → Bytes → Bytes → Bytes → Option Bytes → Connection → Result Thread
dispatch disk g method uri version connection c =
    if contains uri (codes "..")
    then refuse forbidden c
    else if not (streq method (codes "GET"))
    then refuse method_not_allowed c
    else if streq version (codes "HTTP/1.1") || streq version (codes "HTTP/1.0")
    then service_request disk g version uri connection c
    else refuse http_version_not_supported c

-- The words are there, or the request is refused.
abbrev pub handle :
    Disk
    → Garbage
    → Option Bytes
    → Option Bytes
    → Option Bytes
    → Option Bytes
    → Connection
    → Result Thread
handle disk g (some method) (some uri) (some version) connection c =
    dispatch disk g method uri version connection c
handle disk g _ _ _ connection c = refuse bad_request c

-- A thread: `buf` is what its one `recv` gave.
unfoldable pub parse_request : Disk → Garbage → Bytes → Connection → Result Thread
parse_request disk g buf c = read_request (received_text g buf) >>= λ r.
    handle disk g r.method r.uri r.version r.connection c

abbrev pub fresh : Connection
fresh = record { sent = []; is_open = true }
