-- ===== src/Web/Ends.antt =====
-- About the end of the loop of a child process of PA2/server.c.
use network_systems.Prelude.{
  ℕ, zero, suc, ◌<◌, ◌≡◌, ◌≢◌, refl, Bool, not, ◌||◌, Option, some, arith, length, join, ◌==◌,
  Bool-cases, inl, inr,
}
use network_systems.Machine.{Result, ok, err}
use network_systems.Stream.{Segments, recv, bufsize}
use network_systems.Stream.Laws.{AllFull, recv-Received, Received-length}
use network_systems.Web.Request.{Garbage}
use network_systems.Web.Reply.{Connection}
use network_systems.Web.Steps.{after, serve-parse_request}
use network_systems.Web.Service.{Disk, Handled, returned, exited, parse_request, serve, leave}

abbrev Ends : Option (Result Connection) → Type 0
Ends t = (r : Result Connection) × (t ≡ some r)

Ends-after :
    (fuel : ℕ) (disk : Disk) (g : ℕ → Garbage) (running : ℕ → Bool) (rest : Segments)
    (r : Result Handled)
    → ((c : Connection) → Ends (serve fuel disk g running rest c))
    → Ends (after fuel disk g running rest r)
Ends-after fuel disk g running rest (ok (returned c)) later = later c
Ends-after fuel disk g running rest (ok (exited c)) later = (ok c, refl)
Ends-after fuel disk g running rest (err fault) later = (err fault, refl)

-- The loop ends if it does after a request from which the handler returns.
Ends-step :
    (fuel : ℕ) (disk : Disk) (g : ℕ → Garbage) (running : ℕ → Bool) (inbound : Segments)
    (c : Connection)
    → (length (recv bufsize inbound).0 ≢ 0
        → (c' : Connection) → Ends (serve fuel disk g running (recv bufsize inbound).1 c'))
    → Ends (serve (suc fuel) disk g running inbound c)
unfolding serve
Ends-step fuel disk g running inbound c later =
    elim (Bool-cases (length (recv bufsize inbound).0 == 0 || not c.is_open)) [
      | inl over ↦ (ok (leave (running fuel) c), rw over)
      | inr more ↦
          let some_read : length (recv bufsize inbound).0 ≢ 0 = ground arith in
          rw (serve-parse_request fuel disk g running inbound c more) (
            Ends-after fuel disk g running (recv bufsize inbound).1
              (parse_request disk (g fuel) (running fuel) (recv bufsize inbound).0 c)
              (later some_read))
    ]

-- With one unit of fuel more than the stream has bytes the process comes to its end, whatever is
-- requested, and whatever the files and the memory hold.
pub serve_ends :
    (fuel : ℕ) (disk : Disk) (g : ℕ → Garbage) (running : ℕ → Bool) (inbound : Segments)
    (c : Connection)
    → AllFull inbound
    → length (join inbound) < fuel
    → (r : Result Connection) × (serve fuel disk g running inbound c ≡ some r)
serve_ends zero disk g running inbound c full h = absurd (omega arith)
serve_ends (suc fuel) disk g running inbound c full h =
    let r = recv-Received bufsize inbound (omega arith) full in
    Ends-step fuel disk g running inbound c (λ some_read c'.
      serve_ends fuel disk g running (recv bufsize inbound).1 c' r.full
        (omega (arith, Received-length r)))
