-- ===== src/Proxy/BadAnswers.antt =====
-- Answers of origin servers that `relay` of PA3/proxy.c does not cope with.
use network_systems.Prelude.{
  none, ℕ, suc, ◌+◌, ◌-◌, ◌<◌, ◌≡◌, refl, true, false, [], ◌∷◌, ◌++◌, length, join, ap, ◌∙◌, arith,
  lt→ltb, ltb, length-append, drop-append, drop, ◌==◌,
}
use network_systems.CString.{Bytes, codes, cstr, cstr-append, elem, contains, length-cstr-le, pos}
use network_systems.Machine.{ok, err, overflow, hang}
use network_systems.Stream.{read_rest, Segments, bufsize, recv}
use network_systems.Stream.Laws.{AllFull, recv_first, read_rest_hangs}
use network_systems.Proxy.World.{World, Scene}
use network_systems.Proxy.Answer.{
  answer, length-answer, answer_split, cstr-answer, content_length-answer, contains-answer,
  strstr-answer, header_end,
}
use network_systems.Proxy.Relay.{Wanted, cached, take_answer, content_length, payload, store_entry}

-- An answer whose first part fills the whole receive buffer, with no NUL in it, overruns the
-- array that it is copied to.
pub take_answer_overflow :
    (s : Scene) (q : Wanted) (w : World) (buf : Bytes) (segs : Segments)
    → length buf ≡ bufsize
    → elem 0 buf ≡ false
    → take_answer s q (buf ∷ segs) w ≡ err overflow
unfolding take_answer
take_answer_overflow s q w buf segs full no_nul =
    let got : recv bufsize (buf ∷ segs) ≡ (buf, segs) = recv_first bufsize buf segs (omega arith) in
    let not_short : ltb (length buf) bufsize ≡ false = ground arith in
    let text : cstr (buf ++ s.beyond) ≡ buf ++ cstr s.beyond = cstr-append buf s.beyond no_nul in
    let long : ltb (length (buf ++ cstr s.beyond)) bufsize ≡ false =
      ground (arith, length-append buf (cstr s.beyond)) in
    rw (got, not_short, text, long) refl

-- A 200 answer without Content-Length is cached as an empty file, whatever page it carries.
pub take_answer_no_length :
    (s : Scene) (q : Wanted) (w : World) (buf : Bytes) (segs : Segments)
    → length buf < bufsize
    → contains (cstr buf) (codes "Content-Length:") ≡ false
    → contains (cstr buf) (codes "200 OK") ≡ true
    → take_answer s q (buf ∷ segs) w
      ≡ ok (
          cached (record w {
            cache = store_entry q.hash (record { content = []; modified = s.now }) w.cache;
          }))
unfolding take_answer content_length payload
take_answer_no_length s q w buf segs short no_length is_ok =
    let got : recv bufsize (buf ∷ segs) ≡ (buf, segs) = recv_first bufsize buf segs (omega arith) in
    let small : length (cstr buf) < bufsize = omega (arith, short, length-cstr-le buf) in
    rw
      (
        got,
        lt→ltb (length buf) bufsize short,
        lt→ltb (length (cstr buf)) bufsize small,
        no_length,
        is_ok,
      )
      refl

payload_hangs :
    (n : ℕ) (part : Bytes) (segs : Segments)
    → AllFull segs
    → length part + length (join segs) < n
    → payload (pos n) (answer n (cstr part)) (answer n part) segs ≡ err hang
unfolding payload
payload_hangs n part segs full short =
    let front : drop (length (answer n [])) (answer n part) ≡ part =
      ap (drop (length (answer n []))) (answer_split n part) ∙ drop-append (answer n []) part in
    let not_all : ltb n (length part) ≡ false = ground arith in
    let not_zero : (n == 0) ≡ false = ground arith in
    rw
      (
        not_zero,
        strstr-answer n (cstr part),
        header_end n (cstr part),
        front,
        not_all,
        read_rest_hangs (suc (n - length part)) (n - length part) 0 segs full (omega arith),
      )
      refl

-- An origin whose first segment is a header with Content-Length alone, a blank line and a part of the
-- page, below 8192 bytes in all, and whose stream ends before that length is reached: the model of
-- `relay` breaks off with the fault for a loop without end, and its reading loop gives no result
-- with any fuel.
pub take_answer_hangs :
    (s : Scene) (q : Wanted) (w : World) (n : ℕ) (part : Bytes) (segs : Segments)
    → length (answer n part) < bufsize
    → AllFull segs
    → length part + length (join segs) < n
    → (take_answer s q (answer n part ∷ segs) w ≡ err hang)
      × ((fuel : ℕ) → read_rest fuel (n - length part) 0 segs ≡ none)
unfolding take_answer
take_answer_hangs s q w n part segs short full less =
    let small : length (answer n (cstr part)) < bufsize =
      omega
        (arith, short, length-answer n part, length-answer n (cstr part), length-cstr-le part) in
    let stops : take_answer s q (answer n part ∷ segs) w ≡ err hang =
      rw
        (
          recv_first bufsize (answer n part) segs (omega (arith, short)),
          lt→ltb (length (answer n part)) bufsize short,
          cstr-answer n part,
          lt→ltb (length (answer n (cstr part))) bufsize small,
          content_length-answer n (cstr part),
          contains-answer n (cstr part),
          payload_hangs n part segs full less,
        )
        refl in
    (stops, λ fuel. read_rest_hangs fuel (n - length part) 0 segs full (omega arith))
