-- ===== src/Proxy/Blocklist.antt =====
-- The blocklist of PA3/proxy.c, and the requests that one call of `relay` makes.
pub mod Session
pub mod Lines
use network_systems.Prelude.{
  if◌then◌else◌, ℕ, zero, suc, ◌-◌, ◌+◌, ◌<◌, ◌≤◌, ◌≡◌, refl, Bool, true, false, not, ◌||◌, Option,
  none, some, List, [], ◌∷◌, ◌++◌, arith, length, take, ◌==◌, Bool-cases, Option-cases, inl, inr,
  ltb,
}
use network_systems.CString.{Bytes, codes, streq, contains}
use network_systems.Machine.{Fault, Result, ok, err, ◌>>=◌, ◌>>◌, deref, fits}
use network_systems.Machine.Results.{
  Every, every_ok, every_err, Every-bind, Every-if, Every-refl, Every-then, Every-weaken,
}
use network_systems.Stream.{Segments, recv, bufsize}
use network_systems.Web.Reply.{Connection, close}
use network_systems.Web.Service.{leave, temp_size}
use network_systems.Proxy.Request.{HttpRequest, read_request, default_connection, target}
use network_systems.Proxy.Reply.{bad_request, forbidden, http_version_not_supported}
use network_systems.Proxy.World.{Ask, World, Config, Scene, is_blocked, text_of}
use network_systems.Proxy.Relay.{
  Wanted, Relayed, cached, passed_on, blocked, ended, relay, contact, take_answer, copy_connection,
  payload, content_length, origin_request, port_of, log,
}
use network_systems.Proxy.Cache.Kept.{send_from_cache-Kept}
use network_systems.Proxy.Cache.{check_cache, send_from_cache}
use network_systems.Proxy.Service.{
  Outcome, returned, exited, answered, after_relay, from_cache_or_origin, hash_of, service,
  dispatch, handle, parse_request, received_request,
}

-- None of the requests went to a host whose name or address is on the blocklist.
abbrev pub Unlisted : Option Bytes → List Ask → Type 0
Unlisted blocklist [] = Unit
Unlisted blocklist (a ∷ asked) =
    (is_blocked blocklist a.address a.host ≡ ok false) × Unlisted blocklist asked

abbrev pub world_of : Outcome → World
world_of (returned w) = w
world_of (exited w) = w

abbrev relayed_world : Relayed → World
relayed_world (cached w) = w
relayed_world (passed_on w) = w
relayed_world (blocked w) = w
relayed_world (ended w) = w

-- What an operation has done to the requests that were made.
abbrev Asked : List Ask → Outcome → Type 0
Asked asked o = (world_of o).asked ≡ asked

answered-asked : (w : World) (reply : Result Connection) → Every (Asked w.asked) (answered w reply)
answered-asked w reply =
    Every-bind {m = reply} (λ c e. every_ok (returned (record w { client = c })) refl)

from_cache-asked :
    (s : Scene) (q : Wanted) (w : World)
    → Every (Asked w.asked) (send_from_cache s q w >>= λ w'. ok (returned w'))
from_cache-asked s q w =
    Every-then (send_from_cache-Kept s q w) (λ w' kept. every_ok (returned w') kept.asked)

take_answer-asked :
    (s : Scene) (q : Wanted) (answer : Segments) (w : World)
    → Every (λ r. (relayed_world r).asked ≡ w.asked) (take_answer s q answer w)
unfolding take_answer
take_answer-asked s q answer w =
    let (buf, rest) = recv bufsize answer in
    Every-bind {m = fits bufsize (text_of s.beyond buf)} (λ header _.
      Every-bind {m = content_length header} (λ size _.
        Every-if (contains header (codes "200 OK"))
          (Every-bind {m = payload size header buf rest} (λ content _. every_ok _ refl))
          (every_ok _ refl)))

-- A relayed request leaves a log of allowed requests.
abbrev Allowed : Option Bytes → World → Type 0
Allowed blocklist w = Unlisted blocklist w.asked

Unlisted-same :
    (blocklist : Option Bytes) {asked asked' : List Ask}
    → asked' ≡ asked
    → Unlisted blocklist asked
    → Unlisted blocklist asked'
Unlisted-same blocklist e h = rw e h

contact-Allowed :
    (k : Config) (s : Scene) (q : Wanted) (ip : Bytes) (w : World)
    → is_blocked k.blocklist ip q.hostname ≡ ok false
    → Allowed k.blocklist w
    → Every (λ r. Allowed k.blocklist (relayed_world r)) (contact k s q ip w)
unfolding contact
contact-Allowed k s q ip w free allowed =
    elim (Option-cases (s.net.connect ip (port_of q.port_no))) [
      | inl e ↦ rw (e, contact) (every_ok (ended (record w { client = close w.client })) allowed)
      | inr (server, e) ↦
          rw (e, contact)
            (Every-bind {m = fits bufsize (origin_request q)} (λ text _.
              Every-bind
                {m = fits (6 + length q.hash + k.slack (6 + length q.hash))
                  (codes "cache/" ++ q.hash)}
                (λ path _.
                  Every-weaken (take_answer-asked s q (server text) (log q ip text w))
                    (λ r same. Unlisted-same k.blocklist same (free, allowed)))))
    ]

relay-Allowed :
    (k : Config) (s : Scene) (q : Wanted) (w : World)
    → Allowed k.blocklist w
    → Every (λ r. Allowed k.blocklist (relayed_world r)) (relay k s q w)
unfolding relay
relay-Allowed k s q w allowed = Every-bind {m = fits temp_size q.version} (λ version _.
    Every-bind {m = copy_connection q.request.connection} (λ connection _.
      Every-bind {m = deref (s.net.resolve q.hostname)} (λ ip _.
        Every-bind {m = is_blocked k.blocklist ip q.hostname} (λ is_bad e. by_list ip is_bad e))))
  where
    by_list :
        (ip : Bytes) (is_bad : Bool)
        → is_blocked k.blocklist ip q.hostname ≡ ok is_bad
        → Every
            (λ r. Allowed k.blocklist (relayed_world r))
            (if is_bad then ok (blocked w) else contact k s q ip w)
    by_list ip true e = every_ok (blocked w) allowed
    by_list ip false e = contact-Allowed k s q ip w e allowed
