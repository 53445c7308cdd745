-- ===== src/Proxy/Blocklist/Session.antt =====
-- The blocklist of PA3/proxy.c over all requests of a connection.
use network_systems.Proxy.Blocklist.Lines.{AllLines, unlines, is_among, is_blocked-is_among}
use network_systems.Proxy.Steps.{
  after, is_over, received_request-parse_request, received_request_ends,
}
use network_systems.Stream.Laws.{AllFull}
use network_systems.Prelude.{
  List, [], ◌∷◌, Bool, true, false, refl, join, ◌<◌, ap, sym, ◌∙◌, ℕ, zero, suc, ◌<◌, ◌≡◌, not,
  ◌||◌, Option, none, some, length, Bool-cases, inl, inr,
}
use network_systems.CString.{Bytes, codes, streq}
use network_systems.Machine.{Result, ok, err, ◌>>=◌, deref}
use network_systems.Machine.Results.{
  Every, every_ok, every_err, Every-bind, Every-if, Every-then, Every-weaken,
}
use network_systems.Stream.{Segments, recv, bufsize}
use network_systems.Web.Reply.{Connection}
use network_systems.Web.Service.{leave}
use network_systems.Proxy.Request.{HttpRequest, read_request, default_connection, target}
use network_systems.Proxy.Reply.{bad_request, forbidden}
use network_systems.Proxy.World.{Ask, World, Config, Scene, text_of}
use network_systems.Proxy.Relay.{Wanted, Relayed, cached, passed_on, blocked, ended}
use network_systems.Proxy.Cache.{check_cache, send_from_cache}
use network_systems.Proxy.Service.{
  Outcome, returned, exited, answered, after_relay, from_cache_or_origin, hash_of, service,
  dispatch, handle, parse_request, received_request,
}
use network_systems.Proxy.Blocklist.{
  Unlisted, Unlisted-same, world_of, relayed_world, Asked, Allowed, answered-asked,
  from_cache-asked, relay-Allowed,
}

-- What one request may do to the log.
abbrev AllowedOutcome : Option Bytes → Outcome → Type 0
AllowedOutcome blocklist o = Allowed blocklist (world_of o)

module _ (k : Config) where
  asked-Allowed :
      (w : World) (r : Result Outcome)
      → Allowed k.blocklist w
      → Every (Asked w.asked) r
      → Every (AllowedOutcome k.blocklist) r
  asked-Allowed w r allowed h = Every-weaken h (λ o same. Unlisted-same k.blocklist same allowed)

  answered-Allowed :
      (w : World) (reply : Result Connection)
      → Allowed k.blocklist w
      → Every (AllowedOutcome k.blocklist) (answered w reply)
  answered-Allowed w reply allowed =
      asked-Allowed w (answered w reply) allowed (answered-asked w reply)

  from_cache-Allowed :
      (s : Scene) (q : Wanted) (w : World)
      → Allowed k.blocklist w
      → Every (AllowedOutcome k.blocklist) (send_from_cache s q w >>= λ w'. ok (returned w'))
  from_cache-Allowed s q w allowed = asked-Allowed w _ allowed (from_cache-asked s q w)

  after_relay-Allowed :
      (s : Scene) (q : Wanted) (r : Relayed)
      → Allowed k.blocklist (relayed_world r)
      → Every (AllowedOutcome k.blocklist) (after_relay s q r)
  unfolding after_relay
  after_relay-Allowed s q (cached w) allowed = from_cache-Allowed s q w allowed
  after_relay-Allowed s q (passed_on w) allowed = every_ok (returned w) allowed
  after_relay-Allowed s q (blocked w) allowed =
      answered-Allowed w (forbidden q.request w.client) allowed
  after_relay-Allowed s q (ended w) allowed = every_ok (exited w) allowed

  from_cache_or_origin-Allowed :
      (s : Scene) (q : Wanted) (w : World)
      → Allowed k.blocklist w
      → Every (AllowedOutcome k.blocklist) (from_cache_or_origin k s q w)
  unfolding from_cache_or_origin
  from_cache_or_origin-Allowed s q w allowed =
      Every-if (check_cache k s.now w.cache q.hash) (from_cache-Allowed s q w allowed)
        (Every-then (relay-Allowed k s q w allowed) (after_relay-Allowed s q))

  service-Allowed :
      (s : Scene) (uri version : Bytes) (r : HttpRequest) (w : World)
      → Allowed k.blocklist w
      → Every (AllowedOutcome k.blocklist) (service k s uri version r w)
  unfolding service
  service-Allowed s uri version r w allowed = Every-bind {m = deref r.hostname} (λ hostname _.
      Every-bind {m = hash_of k hostname (target uri).file}
        (λ hash _. from_cache_or_origin-Allowed s _ w allowed))

  dispatch-Allowed :
      (s : Scene) (method uri version : Bytes) (r : HttpRequest) (w : World)
      → Allowed k.blocklist w
      → Every (AllowedOutcome k.blocklist) (dispatch k s method uri version r w)
  unfolding dispatch
  dispatch-Allowed s method uri version r w allowed =
      Every-if (not (streq method (codes "GET")))
        (answered-Allowed w (bad_request r w.client) allowed)
        (Every-if (streq version (codes "HTTP/1.1") || streq version (codes "HTTP/1.0"))
          (service-Allowed s uri version r w allowed) (answered-Allowed w _ allowed))

  parse_request-Allowed :
      (s : Scene) (buf : Bytes) (w : World)
      → Allowed k.blocklist w
      → Every (AllowedOutcome k.blocklist) (parse_request k s buf w)
  unfolding parse_request handle
  parse_request-Allowed s buf w allowed =
      Every-bind {m = read_request (text_of s.beyond buf)} (λ r _.
        Every-bind {m = deref r.method} (λ method _.
          Every-bind {m = deref r.version} (λ version _. by_uri r method version r.uri)))
    where
      by_uri :
          (r : HttpRequest) (method version : Bytes) (uri : Option Bytes)
          → Every (AllowedOutcome k.blocklist) (elim uri [
            | none ↦
                answered w (bad_request (record r { version = some (codes "HTTP/1.0") }) w.client)
            | some u ↦
                dispatch k s method u version
                  (record r { connection = default_connection version r.connection })
                  w
          ])
      by_uri r method version none = answered-Allowed w _ allowed
      by_uri r method version (some uri) = dispatch-Allowed s method uri version _ w allowed

left_asked : {v v' : World} → some (ok v) ≡ some (ok v') → v'.asked ≡ v.asked
left_asked {v} {v'} e = let same : v ≡ v' = cc e in ap (λ u. u.asked) (sym same)

after-Allowed :
    (k : Config) (fuel : ℕ) (scene : ℕ → Scene) (rest : Segments) (r : Result Outcome)
    → Every (AllowedOutcome k.blocklist) r
    → ((w : World)
        → Allowed k.blocklist w
        → (w' : World) → received_request fuel k scene rest w ≡ some (ok w')
        → Allowed k.blocklist w')
    → (w' : World) → after fuel k scene rest r ≡ some (ok w')
    → Allowed k.blocklist w'
after-Allowed k fuel scene rest (ok (returned w)) (every_ok _ p) later w' e = later w p w' e
after-Allowed k fuel scene rest (err fault) h later w' e = absurd (cc e)
after-Allowed k fuel scene rest (ok (exited w)) (every_ok _ p) later w' e =
    Unlisted-same k.blocklist (left_asked e) p

received_request-Allowed :
    (fuel : ℕ) (k : Config) (scene : ℕ → Scene) (inbound : Segments) (w : World)
    → Unlisted k.blocklist w.asked
    → (w' : World) → received_request fuel k scene inbound w ≡ some (ok w')
    → Unlisted k.blocklist w'.asked
unfolding received_request
received_request-Allowed zero k scene inbound w allowed w' e = absurd (cc e)
received_request-Allowed (suc fuel) k scene inbound w allowed w' e =
    elim (Bool-cases (is_over inbound w)) [
      | inl over ↦
          (let stops : received_request (suc fuel) k scene inbound w
                ≡ some (ok (record w { client = leave (scene fuel).running w.client })) =
              rw over in
            Unlisted-same k.blocklist (left_asked (sym stops ∙ e)) allowed)
      | inr more ↦
          after-Allowed k fuel scene (recv bufsize inbound).1
            (parse_request k (scene fuel) (recv bufsize inbound).0 w)
            (parse_request-Allowed k (scene fuel) (recv bufsize inbound).0 w allowed)
            (received_request-Allowed fuel k scene (recv bufsize inbound).1) w'
            (sym (received_request-parse_request fuel k scene inbound w more) ∙ e)
    ]

-- The end of a process, in terms of `is_blocked`.
received_request-Unlisted :
    (fuel : ℕ) (k : Config) (scene : ℕ → Scene) (inbound : Segments) (w : World)
    → Unlisted k.blocklist w.asked
    → AllFull inbound
    → length (join inbound) < fuel
    → (r : Result World) × (received_request fuel k scene inbound w ≡ some r)
      × Every (λ w'. Unlisted k.blocklist w'.asked) r
received_request-Unlisted fuel k scene inbound w allowed full enough =
    let (r, e) = received_request_ends fuel k scene inbound w full enough in (r, e, by_result r e)
  where
    by_result :
        (r : Result World)
        → received_request fuel k scene inbound w ≡ some r
        → Every (λ w'. Unlisted k.blocklist w'.asked) r
    by_result (ok w') e = every_ok w' (received_request-Allowed fuel k scene inbound w allowed w' e)
    by_result (err fault) e = every_err fault

-- None of the requests went to a host whose name or address is one of the names.
abbrev pub NotAmong : List Bytes → List Ask → Type 0
NotAmong names [] = Unit
NotAmong names (a ∷ asked) =
    (is_among a.address names ≡ false) × (is_among a.host names ≡ false) × NotAmong names asked

neither : (a b : Bool) → ok (a || b) ≡ ok false → (a ≡ false) × (b ≡ false)
neither true b e = cc e
neither false true e = cc e
neither false false e = (refl, refl)

module _ (names : List Bytes) (lines : AllLines names) where
  Unlisted-NotAmong :
      (asked : List Ask) → Unlisted (some (unlines names)) asked → NotAmong names asked
  Unlisted-NotAmong [] h = tt
  Unlisted-NotAmong (a ∷ asked) (h, all) =
      let (address, host) =
        neither _ _ (sym (is_blocked-is_among a.address a.host names lines) ∙ h) in
      (address, host, Unlisted-NotAmong asked all)

  NotAmong-Unlisted :
      (asked : List Ask) → NotAmong names asked → Unlisted (some (unlines names)) asked
  NotAmong-Unlisted [] h = tt
  NotAmong-Unlisted (a ∷ asked) (address, host, all) = (
    is_blocked-is_among a.address a.host names lines ∙ rw (address, host) refl,
    NotAmong-Unlisted asked all,
  )

  -- With a blocklist file of whole lines, a name on each, with its newline, of at most 252 bytes: a
  -- process of the proxy comes to its end, and if it ends without a fault, all requests that it made
  -- to origin servers went to hosts of which neither the name nor the address is a name of the
  -- file, if that held before. The fuel is more than the stream has bytes.
  pub received_request-NotAmong :
      (fuel : ℕ) (k : Config) (scene : ℕ → Scene) (inbound : Segments) (w : World)
      → k.blocklist ≡ some (unlines names)
      → NotAmong names w.asked
      → AllFull inbound
      → length (join inbound) < fuel
      → (r : Result World) × (received_request fuel k scene inbound w ≡ some r)
        × Every (λ w'. NotAmong names w'.asked) r
  received_request-NotAmong fuel k scene inbound w file allowed full enough =
      let (r, e, every) =
        received_request-Unlisted fuel k scene inbound w
          (rw file (NotAmong-Unlisted w.asked allowed)) full enough in
      (r, e, Every-weaken every (λ w' h. Unlisted-NotAmong w'.asked (rw file at h)))
