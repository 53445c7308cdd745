-- ===== src/Web/Service.antt =====
-- `service_request`, `parse_request` and the loop of a child process of PA2/server.c.
use network_systems.Prelude.{
  ℕ, zero, suc, Bool, true, false, not, ◌&&◌, ◌||◌, Option, none, some, ◌++◌, if◌then◌else◌, ◌==◌,
  length, ltb,
}
use network_systems.CString.{Bytes, codes, cstr, streq, strchr, contains, decimal}
use network_systems.Stream.{Segments, recv, bufsize}
use network_systems.Machine.{Result, ok, err, overflow, ◌>>=◌, deref, fits}
use network_systems.Web.Content.{content_type}
use network_systems.Web.Request.{HttpRequest, Garbage, read_request}
use network_systems.Web.Reply.{
  Connection, send, close, padded, not_found, bad_request, method_not_allowed, forbidden,
  http_version_not_supported,
}

-- The files below the working directory: what `stat` says of a path, and what `fopen` and `fread` give.
pub record Disk : Type 0 where
  pub is_directory : Bytes → Bool
  pub file : Bytes → Option Bytes

-- A handler returns to the loop of its process, or ends the process.
pub data Handled : Type 0 where
  returned : Connection → Handled
  exited : Connection → Handled

abbrev pub temp_size : ℕ
temp_size = 1024

abbrev pub is_some : Option Bytes → Bool
is_some none = false
is_some (some s) = true

-- The path that is opened, in an array of TEMP_SIZE bytes.
unfoldable pub relative_path : Disk → Bytes → Result Bytes
relative_path disk uri = do
  path ← fits temp_size (codes "www" ++ uri)
  if disk.is_directory path
      then (do
        index ← fits temp_size (codes "www" ++ uri ++ codes "/index.html")
        if is_some (disk.file index)
            then ok index
            else fits temp_size (codes "www" ++ uri ++ codes "/index.htm"))
      else ok path

abbrev pub response_header : Bytes → Bytes → ℕ → Bytes → Bytes
response_header version type fsize connection =
    version
    ++ codes " 200 OK\r\nContent-Type: "
    ++ type
    ++ codes "\r\nContent-Length: "
    ++ decimal fsize
    ++ codes "\r\nConnection: "
    ++ connection
    ++ codes "\r\n\r\n"

abbrev pub type_or : Bytes → Option Bytes → Bytes
type_or old none = old
type_or old (some type) = type

-- The file is open and has an extension. `running` is the global `check`. The response's array has
-- room for the header and the payload: the NUL that strcpy writes needs one byte of the payload.
unfoldable pub respond :
    Garbage → Bool → Bytes → Bytes → Bytes → Bytes → Connection → Result Handled
respond g running version connection extension payload c = do
  let last = if running then connection else codes "close"
  header ← fits bufsize (
      response_header version (type_or g.content_type (content_type extension)) (length payload)
        last)
  response ← if length payload == 0 then err overflow else ok (header ++ payload)
  ok (
      if streq last (codes "close") || streq last (codes "Close")
      then exited (close (send response c))
      else returned (send response c))

unfoldable pub service_request : Disk → Garbage → Bool → HttpRequest → Connection → Result Handled
service_request disk g running r c = do
  version ← deref r.version >>= fits temp_size
  connection ← deref r.connection >>= fits temp_size
  uri ← deref r.uri
  path ← relative_path disk uri
  elim (disk.file path) [
    | none ↦ not_found r c >>= λ c'. ok (returned c')
    | some payload ↦ elim (strchr path b'.') [
      | none ↦ not_found r c >>= λ c'. ok (returned c')
      | some extension ↦ respond g running version connection extension payload c
    ]
  ]

-- A missing connection, by the version.
unfoldable pub default_connection : Bytes → Option Bytes → Option Bytes
default_connection version (some connection) = some connection
default_connection version none =
    if streq version (codes "HTTP/1.1")
    then some (codes "keep-alive")
    else if streq version (codes "HTTP/1.0")
    then some (codes "close")
    else none

-- `parse_request` once the three words of the request line are there.
unfoldable pub dispatch :
    Disk → Garbage → Bool → Bytes → Bytes → Bytes → HttpRequest → Connection → Result Handled
dispatch disk g running method uri version r c =
    let keep = record r { connection = some (codes "keep-alive") } in
    if contains uri (codes "..")
    then (forbidden keep c >>= λ c'. ok (returned c'))
    else if not (streq method (codes "GET"))
    then (method_not_allowed r c >>= λ c'. ok (returned c'))
    else if streq version (codes "HTTP/1.1") || streq version (codes "HTTP/1.0")
    then service_request disk g running r c
    else (http_version_not_supported keep c >>= λ c'. ok (returned c'))

abbrev pub bad : HttpRequest → HttpRequest
bad r = record r { version = some (codes "HTTP/1.0"); connection = some (codes "keep-alive") }

unfoldable pub handle : Disk → Garbage → Bool → HttpRequest → Connection → Result Handled
handle disk g running r c = elim r.method [
  | none ↦ bad_request (bad r) c >>= λ c'. ok (returned c')
  | some method ↦ elim r.uri [
    | none ↦ bad_request (bad r) c >>= λ c'. ok (returned c')
    | some uri ↦ elim r.version [
      | none ↦ bad_request (bad r) c >>= λ c'. ok (returned c')
      | some version ↦
          dispatch disk g running method uri version
            (record r { connection = default_connection version r.connection }) c
    ]
  ]
]

-- `buf` as a string: zeros follow what was received, unless it fills the array.
abbrev pub received_text : Garbage → Bytes → Bytes
received_text g buf = if ltb (length buf) bufsize then cstr buf else cstr (buf ++ g.beyond)

unfoldable pub parse_request : Disk → Garbage → Bool → Bytes → Connection → Result Handled
parse_request disk g running buf c =
    read_request g (received_text g buf) >>= λ r. handle disk g running r c

abbrev pub timeout : Bytes
timeout = padded (
    codes
      "HTTP/1.1 408 Request Timeout\r\nContent-Type: text/plain\r\nContent-Length: 0\r\nConnection: close\r\n\r\n")

-- The end of the loop: the client has closed, or sent nothing for ten seconds, or the socket is
-- closed, to which nothing can be sent.
unfoldable pub leave : Bool → Connection → Connection
leave running c = if running && c.is_open then close (send timeout c) else close c

-- The loop of a child process over what its client sends, with the garbage and the flag `check`
-- that each round finds; `none` when the fuel runs out.
unfoldable pub serve :
    ℕ → Disk → (ℕ → Garbage) → (ℕ → Bool) → Segments → Connection → Option (Result Connection)
serve zero disk g running inbound c = none
serve (suc fuel) disk g running inbound c =
    let (buf, rest) = recv bufsize inbound in
    if length buf == 0 || not c.is_open
    then some (ok (leave (running fuel) c))
    else elim (parse_request disk (g fuel) (running fuel) buf c) [
      | ok (returned c') ↦ serve fuel disk g running rest c'
      | ok (exited c') ↦ some (ok c')
      | err fault ↦ some (err fault)
    ]
