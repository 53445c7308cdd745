-- ===== src/Proxy/Answer.antt =====
-- What `relay` of PA3/proxy.c makes of an origin server's answer: a header with the length, and the
-- page behind it.
use network_systems.Prelude.{
  ℕ, ◌+◌, ◌-◌, ◌<◌, ◌≡◌, refl, true, false, [], ◌∷◌, ◌++◌, some, arith, length, drop, take, ltb,
  lt→ltb, length-append, append_assoc, drop-append, ap, sym, ◌∙◌, join, take_all, ◌==◌,
}
use network_systems.CString.{
  Bytes, codes, cstr, cstr-append, decimal, elem-decimal, atoi-decimal, strstr, contains, pos,
  strstr_skip_first, length-cstr-le,
}
use network_systems.Stream.{Segments, bufsize}
use network_systems.Stream.Laws.{AllFull, recv_first, read_rest_all}
use network_systems.Machine.{ok}
use network_systems.Proxy.World.{World, Scene}
use network_systems.Proxy.Relay.{Wanted, cached, take_answer, content_length, payload, store_entry}

-- The header for `n` bytes, with `t` behind it.
unfoldable pub answer : ℕ → Bytes → Bytes
answer n t = codes "HTTP/1.1 200 OK\r\nContent-Length: " ++ (decimal n ++ (codes "\r\n\r\n" ++ t))

pub answer_split : (n : ℕ) (t : Bytes) → answer n t ≡ answer n [] ++ t
unfolding answer
answer_split n t =
    ap (λ s. codes "HTTP/1.1 200 OK\r\nContent-Length: " ++ s)
      (sym (append_assoc (decimal n) (codes "\r\n\r\n") t))

pub cstr-answer : (n : ℕ) (t : Bytes) → cstr (answer n t) ≡ answer n (cstr t)
unfolding answer
cstr-answer n t =
    ap (λ s. codes "HTTP/1.1 200 OK\r\nContent-Length: " ++ s)
      (cstr-append (decimal n) (codes "\r\n\r\n" ++ t) (elem-decimal 0 n refl))

pub length-answer : (n : ℕ) (t : Bytes) → length (answer n t) ≡ length (answer n []) + length t
length-answer n t = ap length (answer_split n t) ∙ length-append (answer n []) t

pub content_length-answer : (n : ℕ) (t : Bytes) → content_length (answer n t) ≡ ok (pos n)
unfolding content_length answer
content_length-answer n t = ap ok (atoi-decimal n (codes "\r\n\r\n" ++ t) refl)

pub contains-answer : (n : ℕ) (t : Bytes) → contains (answer n t) (codes "200 OK") ≡ true
unfolding answer
contains-answer n t = refl

pub strstr-answer :
    (n : ℕ) (t : Bytes) → strstr (answer n t) (codes "\r\n\r\n") ≡ some (codes "\r\n\r\n" ++ t)
unfolding answer
strstr-answer n t =
    strstr_skip_first (decimal n) (codes "\r\n\r\n" ++ t) 13 (codes "\n\r\n")
      (elem-decimal 13 n refl)

-- The length of the header, by the pointers.
pub header_end :
    (n : ℕ) (t : Bytes)
    → length (answer n t) - length (codes "\r\n\r\n" ++ t) + 4 ≡ length (answer n [])
unfolding answer
header_end n t = omega (
  arith,
  length-append (decimal n) (13 ∷ 10 ∷ 13 ∷ 10 ∷ t),
  length-append (decimal n) (13 ∷ 10 ∷ 13 ∷ 10 ∷ []),
)

payload-answer :
    (n : ℕ) (part : Bytes) (segs : Segments)
    → 0 < n
    → AllFull segs
    → length part + length (join segs) ≡ n
    → payload (pos n) (answer n (cstr part)) (answer n part) segs ≡ ok (part ++ join segs)
unfolding payload
payload-answer n part segs some_bytes full whole =
    let (rest, reads, behind, full') = read_rest_all (n - length part) segs full (omega arith) in
    let front : drop (length (answer n [])) (answer n part) ≡ part =
      ap (drop (length (answer n []))) (answer_split n part) ∙ drop-append (answer n []) part in
    let not_all : ltb n (length part) ≡ false = ground arith in
    let not_zero : (n == 0) ≡ false = ground arith in
    let every : take (n - length part) (join segs) ≡ join segs =
      take_all (n - length part) (join segs) (omega arith) in
    rw (
      not_zero,
      strstr-answer n (cstr part),
      header_end n (cstr part),
      front,
      not_all,
      reads,
      every,
    )

-- An answer with its length is stored whole, however the network cuts it behind the header.
pub take_answer-answer :
    (s : Scene) (q : Wanted) (w : World) (n : ℕ) (part : Bytes) (segs : Segments)
    → 0 < n
    → length (answer n part) < bufsize
    → AllFull segs
    → length part + length (join segs) ≡ n
    → take_answer s q (answer n part ∷ segs) w
      ≡ ok (
          cached (record w {
            cache =
                store_entry q.hash
                  (record { content = part ++ join segs; modified = s.now })
                  w.cache;
          }))
unfolding take_answer
take_answer-answer s q w n part segs some_bytes short full whole =
    let small : length (answer n (cstr part)) < bufsize =
      omega
        (arith, short, length-answer n part, length-answer n (cstr part), length-cstr-le part) in
    rw
      (
        recv_first bufsize (answer n part) segs (omega (arith, short)),
        lt→ltb (length (answer n part)) bufsize short,
        cstr-answer n part,
        lt→ltb (length (answer n (cstr part))) bufsize small,
        content_length-answer n (cstr part),
        contains-answer n (cstr part),
        payload-answer n part segs some_bytes full whole,
      )
      refl
