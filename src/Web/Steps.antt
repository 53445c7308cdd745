-- ===== src/Web/Steps.antt =====
-- One turn of the loop of a child process.
use network_systems.Prelude.{ℕ, suc, ◌≡◌, refl, Bool, false, not, ◌||◌, Option, some, ◌==◌, length}
use network_systems.Machine.{Result, ok, err}
use network_systems.Stream.{Segments, recv, bufsize}
use network_systems.Web.Request.{Garbage}
use network_systems.Web.Reply.{Connection}
use network_systems.Web.Service.{Disk, Handled, returned, exited, parse_request, serve}

-- What the loop does after a request.
abbrev pub after :
    ℕ → Disk → (ℕ → Garbage) → (ℕ → Bool) → Segments → Result Handled → Option (Result Connection)
after fuel disk g running rest (ok (returned c)) = serve fuel disk g running rest c
after fuel disk g running rest (ok (exited c)) = some (ok c)
after fuel disk g running rest (err fault) = some (err fault)

after_parse :
    (fuel : ℕ) (disk : Disk) (g : ℕ → Garbage) (running : ℕ → Bool) (inbound : Segments)
    (c : Connection) (r : Result Handled)
    → (length (recv bufsize inbound).0 == 0 || not c.is_open) ≡ false
    → parse_request disk (g fuel) (running fuel) (recv bufsize inbound).0 c ≡ r
    → serve (suc fuel) disk g running inbound c
      ≡ after fuel disk g running (recv bufsize inbound).1 r
unfolding serve
after_parse fuel disk g running inbound c (ok (returned c')) more e = rw (more, e, serve)
after_parse fuel disk g running inbound c (ok (exited c')) more e = rw (more, e, serve)
after_parse fuel disk g running inbound c (err fault) more e = rw (more, e, serve)

pub serve-parse_request :
    (fuel : ℕ) (disk : Disk) (g : ℕ → Garbage) (running : ℕ → Bool) (inbound : Segments)
    (c : Connection)
    → (length (recv bufsize inbound).0 == 0 || not c.is_open) ≡ false
    → serve (suc fuel) disk g running inbound c
      ≡ after fuel disk g running
          (recv bufsize inbound).1
          (parse_request disk (g fuel) (running fuel) (recv bufsize inbound).0 c)
serve-parse_request fuel disk g running inbound c more =
    after_parse fuel disk g running inbound c _ more refl
