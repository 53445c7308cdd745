-- ===== src/Proxy/Relay.antt =====
-- `relay` of PA3/proxy.c: the request to the origin server, and its answer on the way to the cache.
use network_systems.Prelude.{
  ℕ, ◌+◌, ◌-◌, ◌%◌, Option, none, some, [], ◌∷◌, ◌++◌, ◌==◌, ltb, length, take, drop, if◌then◌else◌,
}
use network_systems.CString.{Bytes, codes, streq, strstr, contains, ℤ, pos, negsuc, atoi}
use network_systems.Stream.{Segments, recv, bufsize}
use network_systems.Machine.{Result, ok, err, overflow, ◌>>=◌, ◌>>◌, deref, fits}
use network_systems.Dfs.Service.{receive_rest}
use network_systems.Web.Reply.{send, close, padded}
use network_systems.Web.Service.{temp_size}
use network_systems.Proxy.Request.{HttpRequest}
use network_systems.Proxy.World.{Entry, World, Config, Scene, text_of, is_blocked}

-- client_request, once the request is known to be good.
pub record Wanted : Type 0 where
  pub request : HttpRequest
  pub version : Bytes
  pub hostname : Bytes
  pub file : Bytes
  pub port_no : Option Bytes
  pub hash : Bytes

-- What relay ends with: the payload is in the cache (0), the client has an answer that is not
-- cached (2), the host is on the blocklist, or `error` has ended the process.
pub data Relayed : Type 0 where
  cached : World → Relayed
  passed_on : World → Relayed
  blocked : World → Relayed
  ended : World → Relayed

abbrev port_number : Option Bytes → ℤ
port_number none = pos 80
port_number (some port_no) = atoi port_no

-- The number, 80 if it is zero, in the 16 bits of htons.
abbrev port_16 : ℤ → ℕ
port_16 (pos n) = (if n == 0 then 80 else n) % 65536
port_16 (negsuc n) = 65535 - n % 65536

unfoldable pub port_of : Option Bytes → ℕ
port_of port_no = port_16 (port_number port_no)

unfoldable pub origin_request : Wanted → Bytes
origin_request q =
    codes "GET /"
    ++ q.file
    ++ codes " "
    ++ q.version
    ++ codes "\r\nHost: "
    ++ q.hostname
    ++ codes "\r\nConnection: close\r\n\r\n"

-- content_length_size: 0 without the header, and a null pointer where no blank follows the colon.
unfoldable pub content_length : Bytes → Result ℤ
content_length header =
    if contains header (codes "Content-Length:")
    then (do
      field ← deref (strstr header (codes "Content-Length: "))
      blank ← deref (strstr field (codes " "))
      ok (atoi (drop 1 blank)))
    else ok (pos 0)

-- What is written to the cache file of what `recv` gave, `text` as a string, and of the rest of the
-- stream. A length below zero is a huge one to fwrite.
unfoldable pub payload : ℤ → Bytes → Bytes → Segments → Result Bytes
payload (negsuc n) text buf rest = deref (strstr text (codes "\r\n\r\n")) >> err overflow
payload (pos n) text buf rest = if n == 0 then ok [] else (do
  check ← deref (strstr text (codes "\r\n\r\n"))
  let part = drop (length text - length check + 4) buf
  if ltb n (length part)
      then ok (take n part)
      else (do (more, rest') ← receive_rest (n - length part) rest; ok (part ++ more)))

abbrev pub store_entry : Bytes → Entry → (Bytes → Option Entry) → Bytes → Option Entry
store_entry hash e cache name = if streq name hash then some e else cache name

-- The answer of the origin server.
unfoldable pub take_answer : Scene → Wanted → Segments → World → Result Relayed
take_answer s q answer w =
    let (buf, rest) = recv bufsize answer in
    do
      header ← fits bufsize (text_of s.beyond buf)
      size ← content_length header
      if contains header (codes "200 OK")
          then (do
            content ← payload size header buf rest
            let entry : Entry = record { content = content; modified = s.now }
            ok (cached (record w { cache = store_entry q.hash entry w.cache })))
          else ok (passed_on (record w { client = send (padded header) w.client }))

abbrev pub log : Wanted → Bytes → Bytes → World → World
log q ip text w = record w {
  asked =
      record { host = q.hostname; address = ip; port = port_of q.port_no; text = text } ∷ w.asked;
}

-- From the socket on: the connection, the request and the name of the cache file, whose array has
-- no room for the NUL.
unfoldable pub contact : Config → Scene → Wanted → Bytes → World → Result Relayed
contact k s q ip w = elim (s.net.connect ip (port_of q.port_no)) [
  | none ↦ ok (ended (record w { client = close w.client }))
  | some server ↦ do
    text ← fits bufsize (origin_request q)
    fits (6 + length q.hash + k.slack (6 + length q.hash)) (codes "cache/" ++ q.hash)
    take_answer s q (server text) (log q ip text w)
]

-- strcpy(http_response.connection, …)
abbrev pub copy_connection : Option Bytes → Result Bytes
copy_connection none = ok []
copy_connection (some connection) = fits temp_size connection

-- A host that has no address is a null pointer: the function goes on behind its error response.
unfoldable pub relay : Config → Scene → Wanted → World → Result Relayed
relay k s q w = do
  fits temp_size q.version
  copy_connection q.request.connection
  ip ← deref (s.net.resolve q.hostname)
  is_bad ← is_blocked k.blocklist ip q.hostname
  if is_bad then ok (blocked w) else contact k s q ip w
