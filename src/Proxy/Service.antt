-- ===== src/Proxy/Service.antt =====
-- `parse_request` and the loop of a child process, `received_request`, of PA3/proxy.c.
use network_systems.Prelude.{
  ℕ, zero, suc, ◌+◌, not, ◌||◌, Option, none, some, ◌++◌, ◌==◌, length, if◌then◌else◌,
}
use network_systems.CString.{Bytes, codes, streq}
use network_systems.Stream.{Segments, recv, bufsize}
use network_systems.Machine.{Result, ok, err, ◌>>=◌, deref, fits}
use network_systems.Web.Reply.{Connection}
use network_systems.Web.Service.{leave}
use network_systems.Proxy.Hash.{md5_generator}
use network_systems.Proxy.Request.{HttpRequest, read_request, default_connection, target}
use network_systems.Proxy.Reply.{bad_request, forbidden, http_version_not_supported}
use network_systems.Proxy.World.{World, Config, Scene, text_of}
use network_systems.Proxy.Relay.{Wanted, Relayed, cached, passed_on, blocked, ended, relay}
use network_systems.Proxy.Cache.{check_cache, send_from_cache}

-- The request is served and the process goes on, or the process has ended.
pub data Outcome : Type 0 where
  returned : World → Outcome
  exited : World → Outcome

-- An error response, as a result of the whole.
abbrev pub answered : World → Result Connection → Result Outcome
answered w reply = reply >>= λ c. ok (returned (record w { client = c }))

-- What follows `relay`.
unfoldable pub after_relay : Scene → Wanted → Relayed → Result Outcome
after_relay s q (cached w) = send_from_cache s q w >>= λ w'. ok (returned w')
after_relay s q (passed_on w) = ok (returned w)
after_relay s q (blocked w) = answered w (forbidden q.request w.client)
after_relay s q (ended w) = ok (exited w)

unfoldable pub from_cache_or_origin : Config → Scene → Wanted → World → Result Outcome
from_cache_or_origin k s q w =
    if check_cache k s.now w.cache q.hash
    then (send_from_cache s q w >>= λ w'. ok (returned w'))
    else relay k s q w >>= after_relay s q

-- The arrays of the hash and of its text, each with strlen(hostname) + strlen(file) + 1 bytes.
unfoldable pub hash_of : Config → Bytes → Bytes → Result Bytes
hash_of k hostname file = do
  let size = length hostname + length file + 1
  hash_input ← fits (size + k.slack size) (hostname ++ codes "/" ++ file)
  fits (size + k.slack size) (md5_generator hash_input)

-- A good request.
unfoldable pub service : Config → Scene → Bytes → Bytes → HttpRequest → World → Result Outcome
service k s uri version r w = do
  hostname ← deref r.hostname
  let t = target uri
  hash ← hash_of k hostname t.file
  from_cache_or_origin k s
      (record {
        request = r;
        version = version;
        hostname = hostname;
        file = t.file;
        port_no = t.port_no;
        hash = hash;
      })
      w

-- The tests on the words of the request line.
unfoldable pub dispatch :
    Config → Scene → Bytes → Bytes → Bytes → HttpRequest → World → Result Outcome
dispatch k s method uri version r w =
    if not (streq method (codes "GET"))
    then answered w (bad_request r w.client)
    else if streq version (codes "HTTP/1.1") || streq version (codes "HTTP/1.0")
    then service k s uri version r w
    else answered w
        (http_version_not_supported (record r { connection = some (codes "keep-alive") }) w.client)

-- strlen of the method and of the version comes in front of the test for null pointers.
unfoldable pub handle : Config → Scene → HttpRequest → World → Result Outcome
handle k s r w = do
  method ← deref r.method
  version ← deref r.version
  elim r.uri [
    | none ↦ answered w (bad_request (record r { version = some (codes "HTTP/1.0") }) w.client)
    | some uri ↦
        dispatch k s method uri version
          (record r { connection = default_connection version r.connection }) w
  ]

unfoldable pub parse_request : Config → Scene → Bytes → World → Result Outcome
parse_request k s buf w = read_request (text_of s.beyond buf) >>= λ r. handle k s r w

-- The loop over what the client sends; `none` when the fuel runs out.
unfoldable pub received_request :
    ℕ → Config → (ℕ → Scene) → Segments → World → Option (Result World)
received_request zero k scene inbound w = none
received_request (suc fuel) k scene inbound w =
    let (buf, rest) = recv bufsize inbound in
    if length buf == 0 || not w.client.is_open
    then some (ok (record w { client = leave (scene fuel).running w.client }))
    else elim (parse_request k (scene fuel) buf w) [
      | ok (returned w') ↦ received_request fuel k scene rest w'
      | ok (exited w') ↦ some (ok w')
      | err fault ↦ some (err fault)
    ]
