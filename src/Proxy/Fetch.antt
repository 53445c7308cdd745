-- ===== src/Proxy/Fetch.antt =====
-- About a page of an origin server on its way through the cache of PA3/proxy.c.
use network_systems.Prelude.{
  ℕ, ◌+◌, ◌-◌, ◌<◌, ◌≤◌, ◌≡◌, refl, true, false, ◌∷◌, ◌++◌, some, arith, length, ltb, lt→ltb, join,
  Option,
}
use network_systems.CString.{Bytes, codes, streq_refl}
use network_systems.Stream.{Segments, bufsize}
use network_systems.Stream.Laws.{AllFull}
use network_systems.Machine.{ok}
use network_systems.Web.Service.{temp_size}
use network_systems.Proxy.World.{Entry, World, Config, Scene, is_blocked}
use network_systems.Proxy.Relay.{
  Wanted, cached, relay, contact, origin_request, port_of, store_entry, log, copy_connection,
}
use network_systems.Proxy.Cache.{check_cache}
use network_systems.Proxy.Cache.Laws.{CanServe, Served, send_from_cache-Served}
use network_systems.Proxy.Service.{returned, from_cache_or_origin, after_relay}
use network_systems.Proxy.Answer.{answer, take_answer-answer}

-- The origin is found, is not on the blocklist, and answers with `content`: `part` of it behind the
-- header in the first segment, the rest in `segs`.
pub record HasOrigin (k : Config) (s : Scene) (q : Wanted) (ip part : Bytes) (segs : Segments)
    : Type 0 where
  pub server : Bytes → Segments
  pub resolves : s.net.resolve q.hostname ≡ some ip
  pub allowed : is_blocked k.blocklist ip q.hostname ≡ ok false
  pub connects : s.net.connect ip (port_of q.port_no) ≡ some server
  pub answers : server (origin_request q) ≡ answer (length part + length (join segs)) part ∷ segs
  pub some_bytes : 0 < length part + length (join segs)
  pub full : AllFull segs
  pub one_segment : length (answer (length part + length (join segs)) part) < bufsize
  pub request_fits : length (origin_request q) < bufsize
  pub name_fits :
      length (codes "cache/" ++ q.hash) < 6 + length q.hash + k.slack (6 + length q.hash)

-- The world once the page is in the cache.
abbrev pub fetched : Scene → Wanted → Bytes → Bytes → World → World
fetched s q ip content w = record w {
  cache = store_entry q.hash (record { content = content; modified = s.now }) w.cache;
  asked = (log q ip (origin_request q) w).asked;
}

contact-fetched :
    (k : Config) (s : Scene) (q : Wanted) (w : World) (ip part : Bytes) (segs : Segments)
    → HasOrigin k s q ip part segs
    → contact k s q ip w ≡ ok (cached (fetched s q ip (part ++ join segs) w))
unfolding contact
contact-fetched k s q w ip part segs h =
    rw
      (
        h.connects,
        contact,
        lt→ltb (length (origin_request q)) bufsize h.request_fits,
        lt→ltb (length (codes "cache/" ++ q.hash)) (6 + length q.hash + k.slack (6 + length q.hash))
            h.name_fits,
        h.answers,
      )
      (take_answer-answer s q (log q ip (origin_request q) w) (length part + length (join segs))
        part segs h.some_bytes h.one_segment h.full refl)

copied :
    (c : Option Bytes) (connection : Bytes)
    → c ≡ some connection
    → length connection < temp_size
    → copy_connection c ≡ ok connection
copied c connection e h = rw (e, lt→ltb (length connection) temp_size h) refl

relay-fetched :
    (k : Config) (s : Scene) (q : Wanted) (w : World) (connection ip part : Bytes) (segs : Segments)
    → CanServe s q connection (part ++ join segs)
    → HasOrigin k s q ip part segs
    → relay k s q w ≡ ok (cached (fetched s q ip (part ++ join segs) w))
unfolding relay
relay-fetched k s q w connection ip part segs can h =
    rw
      (
        lt→ltb (length q.version) temp_size can.version,
        copied q.request.connection connection can.has_connection can.short_connection,
        h.resolves,
        h.allowed,
      )
      (contact-fetched k s q w ip part segs h)

check_cache-fresh :
    (k : Config) (now : ℕ) (cache : Bytes → Option Entry) (hash : Bytes) (entry : Entry)
    → cache hash ≡ some entry
    → now - entry.modified ≤ k.timeout
    → check_cache k now cache hash ≡ true
unfolding check_cache
check_cache-fresh k now cache hash entry found young =
    let fresh : ltb k.timeout (now - entry.modified) ≡ false = ground arith in rw (found, fresh)

-- A page whose cache file is at most `timeout` seconds old is sent to the client whole, with no
-- request to an origin server and no change of the cache. The texts fit their arrays.
pub from_cache_or_origin-Served :
    (k : Config) (s : Scene) (q : Wanted) (w : World) (connection : Bytes) (entry : Entry)
    → CanServe s q connection entry.content
    → w.cache q.hash ≡ some entry
    → s.now - entry.modified ≤ k.timeout
    → (w' : World) × (from_cache_or_origin k s q w ≡ ok (returned w'))
      × Served s q connection entry.content w w'
unfolding from_cache_or_origin
from_cache_or_origin-Served k s q w connection entry can found young =
    let (w', e, served) = send_from_cache-Served s q w connection entry can found in
    (w', rw (check_cache-fresh k s.now w.cache q.hash entry found young, e), served)

-- The first request for a page gets it from the origin.
pub from_cache_or_origin-fetched :
    (k : Config) (s : Scene) (q : Wanted) (w : World) (connection ip part : Bytes) (segs : Segments)
    → CanServe s q connection (part ++ join segs)
    → HasOrigin k s q ip part segs
    → check_cache k s.now w.cache q.hash ≡ false
    → (w' : World) × (from_cache_or_origin k s q w ≡ ok (returned w'))
      × Served s q connection (part ++ join segs) (fetched s q ip (part ++ join segs) w) w'
unfolding from_cache_or_origin after_relay
from_cache_or_origin-fetched k s q w connection ip part segs can h miss =
    let found : (fetched s q ip (part ++ join segs) w).cache q.hash
        ≡ some (record { content = part ++ join segs; modified = s.now }) =
      rw (streq_refl q.hash) in
    let (w', e, served) =
      send_from_cache-Served s q (fetched s q ip (part ++ join segs) w) connection
        (record { content = part ++ join segs; modified = s.now }) can found in
    (w', rw (miss, relay-fetched k s q w connection ip part segs can h, e), served)
