-- ===== src/Threaded/Words.antt =====
-- The calls of `strtok` in `parse_request` of PA2/threaded_server.c, where two threads make them:
-- the pointer that `strtok` saves between its calls is one for the whole process.
use network_systems.Prelude.{
  ◌≡◌, refl, ◌∙◌, Bool, true, false, Option, List, [], ◌∷◌, ◌++◌, replicate,
}
use network_systems.CString.{Bytes, codes, strtok}
use network_systems.Web.Request.{HttpRequest}
use network_systems.Threaded.Request.{scan_request}

-- strtok(s, delims) and strtok(NULL, delims)
pub data Call : Type 0 where
  first : Bytes → Bytes → Call
  next : Bytes → Call

-- A thread: the calls it has still to make, and what its calls gave.
pub record Caller : Type 0 where
  pub calls : List Call
  pub tokens : List (Option Bytes)

pub record System : Type 0 where
  pub saved : Bytes
  pub left : Caller
  pub right : Caller

-- The string that a call starts at.
abbrev pub start_of : Call → Bytes → Bytes
start_of (first s delims) saved = s
start_of (next delims) saved = saved

abbrev pub delims_of : Call → Bytes
delims_of (first s delims) = delims
delims_of (next delims) = delims

-- One call of a thread, over the saved pointer.
abbrev pub next_call : List Call → List (Option Bytes) → Bytes → Caller × Bytes
next_call [] tokens saved = (record { calls = []; tokens = tokens }, saved)
next_call (c ∷ calls) tokens saved =
    let scan = strtok (delims_of c) (start_of c saved) in
    (record { calls = calls; tokens = tokens ++ scan.token ∷ [] }, scan.saved)

abbrev pub call : Caller → Bytes → Caller × Bytes
call thread saved = next_call thread.calls thread.tokens saved

-- One call of the left or of the right thread.
abbrev pub step : Bool → System → System
step true s =
    let (left, saved) = call s.left s.saved in
    record { saved = saved; left = left; right = s.right }
step false s =
    let (right, saved) = call s.right s.saved in
    record { saved = saved; left = s.left; right = right }

-- The calls in the order of a schedule.
unfoldable pub run : List Bool → System → System
run [] s = s
run (turn ∷ schedule) s = run schedule (step turn s)

-- The calls of `parse_request` for a line.
abbrev pub request_calls : Bytes → List Call
request_calls line =
    first line (codes " ")
    ∷ next (codes " ")
    ∷ next (codes "\r")
    ∷ next (codes " ")
    ∷ next (codes "\r")
    ∷ next (codes " ")
    ∷ next (codes "\r")
    ∷ []

abbrev pub both : Bytes → Bytes → Bytes → System
both saved line line' = record {
  saved = saved;
  left = record { calls = request_calls line; tokens = [] };
  right = record { calls = request_calls line'; tokens = [] };
}

-- The fields of a request among the tokens: the fourth and the sixth are names of headers.
pub data Holds (r : HttpRequest) : List (Option Bytes) → Type 0 where
  holds :
      (k k' : Option Bytes)
      → Holds r (r.method ∷ r.uri ∷ r.version ∷ k ∷ r.host ∷ k' ∷ r.connection ∷ [])

-- If one thread makes all its calls before the other makes its first, each gets the words of its
-- own request.
pub run-apart :
    (saved line line' : Bytes)
    → Holds
        (scan_request line)
        (run (replicate 7 true ++ replicate 7 false) (both saved line line')).left.tokens
      × Holds
          (scan_request line')
          (run (replicate 7 true ++ replicate 7 false) (both saved line line')).right.tokens
unfolding run scan_request
run-apart saved line line' = (holds _ _, holds _ _)

-- A thread with no calls left keeps what its calls gave.
idle_left :
    (schedule : List Bool) (s : System)
    → s.left.calls ≡ []
    → (run schedule s).left.tokens ≡ s.left.tokens
unfolding run
idle_left [] s e = refl
idle_left (true ∷ schedule) s e = idle_left schedule (step true s) (rw e refl) ∙ rw e refl
idle_left (false ∷ schedule) s e = idle_left schedule (step false s) e

run-append :
    (first_turns later : List Bool) (s : System)
    → run (first_turns ++ later) s ≡ run later (run first_turns s)
unfolding run
run-append [] later s = refl
run-append (turn ∷ turns) later s = run-append turns later (step turn s)

-- If the other thread makes its first call right behind the first call of a thread, and no second
-- one before that thread has made all of its calls, that thread goes on in the other's request: it
-- has its own method, and the URI, the version and the headers that the other client sent, whatever
-- both do later.
pub run-mixed :
    (saved line line' : Bytes) (later : List Bool)
    → Holds
        (record (scan_request line') { method = (scan_request line).method })
        (run (true ∷ false ∷ replicate 6 true ++ later) (both saved line line')).left.tokens
unfolding run scan_request
run-mixed saved line line' later =
    rw
      (
        run-append (true ∷ false ∷ replicate 6 true) later (both saved line line'),
        idle_left later (run (true ∷ false ∷ replicate 6 true) (both saved line line')) refl,
      )
      (holds _ _)
