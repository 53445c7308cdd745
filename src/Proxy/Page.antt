-- ===== src/Proxy/Page.antt =====
-- Two clients of PA3/proxy.c ask for the same page.
use network_systems.Prelude.{◌+◌, ◌-◌, ◌≤◌, ◌≡◌, false, some, ◌++◌, length, join, ap, ◌∙◌}
use network_systems.CString.{Bytes, codes, streq_refl}
use network_systems.Machine.{ok}
use network_systems.Stream.{Segments}
use network_systems.Web.Reply.{Connection}
use network_systems.Proxy.World.{Entry, World, Config, Scene}
use network_systems.Proxy.Cache.{check_cache}
use network_systems.Proxy.Cache.Laws.{CanServe, Served}
use network_systems.Proxy.Fetch.{
  HasOrigin, fetched, from_cache_or_origin-Served, from_cache_or_origin-fetched,
}
use network_systems.Proxy.Service.{returned, parse_request}
use network_systems.Proxy.Plain.{IsPlain, get_request, plain_wanted, parse_request-get_request}

-- The same proxy with another client.
abbrev pub for_client : Connection → World → World
for_client c w = record w { client = c }

-- Two clients ask for one page, the second at most `timeout` seconds after the first, and the
-- page is not in the cache before. The origin's answer, with the page's length and cut anywhere
-- behind its header, goes into the cache; both clients get the page whole, in pieces behind a
-- header; and one request in all goes to the origin. The host is not on the blocklist, the names
-- are plain and the texts fit their arrays.
pub parse_request_twice :
    (k : Config) (s s₂ : Scene) (w : World) (c₂ : Connection) (host file ip part : Bytes)
    (segs : Segments)
    → IsPlain host file
    → 20 ≤ k.slack (length host + length file + 1)
    → HasOrigin k s (plain_wanted host file) ip part segs
    → check_cache k s.now w.cache (plain_wanted host file).hash ≡ false
    → CanServe s (plain_wanted host file) (codes "close") (part ++ join segs)
    → CanServe s₂ (plain_wanted host file) (codes "close") (part ++ join segs)
    → s₂.now - s.now ≤ k.timeout
    → (w₁ : World) × (w₂ : World) × (parse_request k s (get_request host file) w ≡ ok (returned w₁))
      × (parse_request k s₂ (get_request host file) (for_client c₂ w₁) ≡ ok (returned w₂))
      × Served s
          (plain_wanted host file)
          (codes "close")
          (part ++ join segs)
          (fetched s (plain_wanted host file) ip (part ++ join segs) w)
          w₁
      × Served s₂ (plain_wanted host file) (codes "close") (part ++ join segs) (for_client c₂ w₁) w₂
parse_request_twice k s s₂ w c₂ host file ip part segs plain room origin miss can can₂ young =
    let q = plain_wanted host file in
    let content = part ++ join segs in
    let entry : Entry = record { content = content; modified = s.now } in
    let (w₁, e, served) =
      from_cache_or_origin-fetched k s q w (codes "close") ip part segs can origin miss in
    let stored : (fetched s q ip content w).cache q.hash ≡ some entry = rw (streq_refl q.hash) in
    let (w₂, e₂, served₂) =
      from_cache_or_origin-Served k s₂ q (for_client c₂ w₁) (codes "close") entry can₂
        (ap (λ cache. cache q.hash) served.cache ∙ stored) young in
    (
      w₁,
      w₂,
      parse_request-get_request host file plain k s w room ∙ e,
      parse_request-get_request host file plain k s₂ (for_client c₂ w₁) room ∙ e₂,
      served,
      served₂,
    )
