-- ===== src/Proxy/Steps.antt =====
-- One turn of the loop of a child process of PA3/proxy.c, and its end.
use network_systems.Prelude.{
  ℕ, zero, suc, ◌<◌, ◌≡◌, ◌≢◌, refl, Bool, false, not, ◌||◌, Option, some, ◌==◌, length, arith,
  join, Bool-cases, inl, inr,
}
use network_systems.Machine.{Result, ok, err}
use network_systems.Stream.{Segments, recv, bufsize}
use network_systems.Stream.Laws.{AllFull, recv-Received, Received-length}
use network_systems.Web.Service.{leave}
use network_systems.Proxy.World.{World, Config, Scene}
use network_systems.Proxy.Service.{Outcome, returned, exited, parse_request, received_request}

-- What the loop does after a request.
abbrev pub after : ℕ → Config → (ℕ → Scene) → Segments → Result Outcome → Option (Result World)
after fuel k scene rest (ok (returned w)) = received_request fuel k scene rest w
after fuel k scene rest (ok (exited w)) = some (ok w)
after fuel k scene rest (err fault) = some (err fault)

-- The loop reads no further.
abbrev pub is_over : Segments → World → Bool
is_over inbound w = length (recv bufsize inbound).0 == 0 || not w.client.is_open

after_parse :
    (fuel : ℕ) (k : Config) (scene : ℕ → Scene) (inbound : Segments) (w : World)
    (r : Result Outcome)
    → is_over inbound w ≡ false
    → parse_request k (scene fuel) (recv bufsize inbound).0 w ≡ r
    → received_request (suc fuel) k scene inbound w ≡ after fuel k scene (recv bufsize inbound).1 r
unfolding received_request
after_parse fuel k scene inbound w (ok (returned w')) more e = rw (more, e, received_request)
after_parse fuel k scene inbound w (ok (exited w')) more e = rw (more, e, received_request)
after_parse fuel k scene inbound w (err fault) more e = rw (more, e, received_request)

-- A turn of the loop that reads a request.
pub received_request-parse_request :
    (fuel : ℕ) (k : Config) (scene : ℕ → Scene) (inbound : Segments) (w : World)
    → is_over inbound w ≡ false
    → received_request (suc fuel) k scene inbound w
      ≡ after fuel k scene
          (recv bufsize inbound).1
          (parse_request k (scene fuel) (recv bufsize inbound).0 w)
received_request-parse_request fuel k scene inbound w more =
    after_parse fuel k scene inbound w _ more refl

abbrev Ends : Option (Result World) → Type 0
Ends t = (r : Result World) × (t ≡ some r)

Ends-after :
    (fuel : ℕ) (k : Config) (scene : ℕ → Scene) (rest : Segments) (r : Result Outcome)
    → ((w : World) → Ends (received_request fuel k scene rest w))
    → Ends (after fuel k scene rest r)
Ends-after fuel k scene rest (ok (returned w)) later = later w
Ends-after fuel k scene rest (ok (exited w)) later = (ok w, refl)
Ends-after fuel k scene rest (err fault) later = (err fault, refl)

-- The loop ends if it does after a request from which the handler returns.
Ends-step :
    (fuel : ℕ) (k : Config) (scene : ℕ → Scene) (inbound : Segments) (w : World)
    → (length (recv bufsize inbound).0 ≢ 0
        → (w' : World) → Ends (received_request fuel k scene (recv bufsize inbound).1 w'))
    → Ends (received_request (suc fuel) k scene inbound w)
unfolding received_request
Ends-step fuel k scene inbound w later = elim (Bool-cases (is_over inbound w)) [
  | inl over ↦ (ok (record w { client = leave (scene fuel).running w.client }), rw over)
  | inr more ↦
      let some_read : length (recv bufsize inbound).0 ≢ 0 = ground arith in
      rw (received_request-parse_request fuel k scene inbound w more) (
        Ends-after fuel k scene (recv bufsize inbound).1
          (parse_request k (scene fuel) (recv bufsize inbound).0 w) (later some_read))
]

-- With one unit of fuel more than the stream has bytes the process comes to its end, whatever is
-- requested, and whatever the Internet, the cache and the memory hold.
pub received_request_ends :
    (fuel : ℕ) (k : Config) (scene : ℕ → Scene) (inbound : Segments) (w : World)
    → AllFull inbound
    → length (join inbound) < fuel
    → (r : Result World) × (received_request fuel k scene inbound w ≡ some r)
received_request_ends zero k scene inbound w full h = absurd (omega arith)
received_request_ends (suc fuel) k scene inbound w full h =
    let r = recv-Received bufsize inbound (omega arith) full in
    Ends-step fuel k scene inbound w (λ some_read w'.
      received_request_ends fuel k scene (recv bufsize inbound).1 w' r.full
        (omega (arith, Received-length r)))
