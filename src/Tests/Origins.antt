-- ===== src/Tests/Origins.antt =====
-- The proxy of PA3 with hosts that are blocked and origin servers that answer badly.
use network_systems.Prelude.{
  ℕ, none, ℕ, ◌-◌, ◌||◌, ◌≡◌, ◌<◌, refl, false, [], ◌∷◌, some, arith, length, ap, List,
}
use network_systems.CString.{decimal, Bytes, codes, elem}
use network_systems.Machine.{Result, ok, err, hang}
use network_systems.Machine.Results.{Every}
use network_systems.Stream.{read_rest, Segments}
use network_systems.Proxy.World.{World, is_blocked}
use network_systems.Proxy.Relay.{take_answer}
use network_systems.Proxy.Plain.{get_request}
use network_systems.Proxy.BadAnswers.{take_answer_hangs}
use network_systems.Proxy.Answer.{answer}
use network_systems.Proxy.Blocklist.Lines.{IsLine, unlines, is_among, is_blocked-is_among}
use network_systems.Proxy.Blocklist.Session.{NotAmong, received_request-NotAmong}
use network_systems.Proxy.Service.{received_request}
use network_systems.Tests.Proxy.{config, at_time, empty_world, page}

name-IsLine :
    (c : ℕ) (name : Bytes)
    → elem 0 (c ∷ name) ≡ false
    → elem 10 (c ∷ name) ≡ false
    → length (c ∷ name) < 253
    → IsLine (c ∷ name)
name-IsLine c name z n l = record {
  ne_nil = λ e. absurd (omega (arith, ap length e));
  no_nul = z;
  no_newline = n;
  short = l;
}

abbrev listed : List Bytes
listed = codes "bad.com" ∷ codes "10.9.9.9" ∷ []

is_blocked-is_among_example :
    is_blocked (some (unlines listed)) (codes "10.9.9.9") (codes "c.com")
    ≡ ok (is_among (codes "10.9.9.9") listed || is_among (codes "c.com") listed)
is_blocked-is_among_example =
    is_blocked-is_among (codes "10.9.9.9") (codes "c.com") listed
      (name-IsLine _ _ refl refl (omega arith), (name-IsLine _ _ refl refl (omega arith), tt))

abbrev requests : Segments
requests = get_request (codes "a.com") (codes "x.css") ∷ get_request (codes "bad.com") [] ∷ []

received_request-NotAmong_example :
    (r : Result World) × (received_request 500 config (λ i. at_time (1000 - i)) requests empty_world
      ≡ some r)
    × Every (λ w'. NotAmong (codes "bad.com" ∷ []) w'.asked) r
unfolding unlines
received_request-NotAmong_example =
    received_request-NotAmong (codes "bad.com" ∷ []) (name-IsLine _ _ refl refl (omega arith), tt)
      500 config (λ i. at_time (1000 - i)) requests empty_world refl tt
      (omega arith, (omega arith, tt)) (omega arith)

take_answer_hangs_example :
    (take_answer (at_time 7) page (answer 9 (codes "he") ∷ codes "llo" ∷ []) empty_world ≡ err hang)
    × ((fuel : ℕ) → read_rest fuel 7 0 (codes "llo" ∷ []) ≡ none)
unfolding answer decimal
take_answer_hangs_example =
    take_answer_hangs (at_time 7) page empty_world 9 (codes "he") (codes "llo" ∷ []) (omega arith)
      (omega arith, tt) (omega arith)
