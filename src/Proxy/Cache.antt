-- ===== src/Proxy/Cache.antt =====
-- `check_cache` and `send_from_cache` of PA3/proxy.c.
pub mod Laws
pub mod Kept
use network_systems.Prelude.{
  ℕ, zero, suc, ◌-◌, Bool, true, false, not, ◌||◌, Option, none, some, List, [], ◌∷◌, ◌++◌, ltb,
  ◌==◌, length, take, drop, if◌then◌else◌,
}
use network_systems.CString.{Bytes, codes, streq}
use network_systems.Stream.{bufsize}
use network_systems.Machine.{Result, ok, ◌>>=◌, ◌>>◌, deref, fits}
use network_systems.Web.Reply.{Connection, send, close}
use network_systems.Web.Service.{temp_size, response_header}
use network_systems.Proxy.Content.{filename_ext, content_type}
use network_systems.Proxy.Request.{HttpRequest}
use network_systems.Proxy.Relay.{Wanted}
use network_systems.Proxy.World.{Entry, World, Config, Scene}

-- The file is there and not older than the timeout.
abbrev pub is_fresh : Config → ℕ → Option Entry → Bool
is_fresh k now none = false
is_fresh k now (some entry) = not (ltb k.timeout (now - entry.modified))

unfoldable pub check_cache : Config → ℕ → (Bytes → Option Entry) → Bytes → Bool
check_cache k now cache hash = is_fresh k now (cache hash)

-- The loop of fread and send: pieces of at most BUFSIZE bytes; each takes a unit of fuel.
unfoldable pub pieces : ℕ → Bytes → List Bytes
pieces zero file = []
pieces (suc fuel) file =
    let more = pieces fuel (drop bufsize file) in
    if length file == 0 then [] else take bufsize file ∷ more

abbrev pub send_all : List Bytes → Connection → Connection
send_all [] c = c
send_all (piece ∷ more) c = send_all more (send piece c)

-- The header and the file go to the client. A file that is not there is a null pointer: fileno is
-- called in front of the test.
unfoldable pub send_from_cache : Scene → Wanted → World → Result World
send_from_cache s q w = do
  version ← fits temp_size q.version
  connection ← deref q.request.connection >>= fits temp_size
  path ← fits temp_size (codes "cache/" ++ q.hash)
  entry ← deref (w.cache q.hash)
  let fsize = length entry.content
  let last = if s.running then connection else codes "close"
  header ← fits bufsize (response_header version (content_type (filename_ext q.file)) fsize last)
  let c = send_all (pieces fsize entry.content) (send header w.client)
  ok (record w {
    client = if streq last (codes "close") || streq last (codes "Close") then close c else c;
  })
