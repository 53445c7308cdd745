-- ===== src/Stream/Laws.antt =====
-- What `recv` gives, and what the reading loop makes of a stream, however it was cut.
use network_systems.Prelude.{
  ℕ, zero, suc, ◌+◌, ◌-◌, ◌≤◌, ◌<◌, ◌≡◌, refl, [], ◌∷◌, ◌++◌, Option, none, some, ltb, leb, length,
  take, drop, join, arith, length-append, take-append-drop, append_assoc, ap, sym, ◌∙◌, Bool-cases,
  true, inl, inr, length-take, ltb→lt, lt→ltb, length-drop, take-append_le, drop-append_le,
}
use network_systems.CString.{Bytes}
use network_systems.Stream.{Segments, recv, receive_size, read_rest}

-- The network delivers no empty segment.
abbrev pub AllFull : Segments → Type 0
AllFull [] = Unit
AllFull (s ∷ rest) = (0 < length s) × AllFull rest

-- What one `recv` does to the stream.
pub record Received (size : ℕ) (segs : Segments) (buf : Bytes) (rest : Segments) : Type 0 where
  pub splits : join segs ≡ buf ++ join rest
  pub fits : length buf ≤ size
  pub progress : 0 < size → 0 < length (join segs) → 0 < length buf
  pub full : AllFull rest

pub recv-Received :
    (size : ℕ) (segs : Segments)
    → 0 < size
    → AllFull segs
    → Received size segs (recv size segs).0 (recv size segs).1
unfolding recv
recv-Received size [] p h = record {
  splits = refl;
  fits = omega arith;
  progress = λ _ q. q;
  full = tt;
}
recv-Received size (s ∷ rest) p h = elim (Bool-cases (leb (length s) size)) [
  | inl small ↦
      rw small (record { splits = refl; fits = ground arith; progress = λ _ _. h.0; full = h.1 })
  | inr big ↦
      let big→lt : size < length s = ground arith in
      rw big (record {
        splits =
            ap (λ t. t ++ join rest) (sym (take-append-drop size s))
            ∙ append_assoc (take size s) (drop size s) (join rest);
        fits = omega (arith, length-take size s);
        progress = λ _ _. omega (arith, length-take size s, big→lt);
        full = (omega (arith, length-drop size s, big→lt), h.1);
      })
]

-- What the loop returns: the bytes asked for, and the rest of the stream.
abbrev pub ReadsTo : Option (Bytes × Segments) → ℕ → Bytes → Type 0
ReadsTo r n stream =
    (rest : Segments) × (r ≡ some (take n stream, rest))
    × (join rest ≡ drop n stream)
    × AllFull rest

pub Received-length :
    {size : ℕ} {segs : Segments} {buf : Bytes} {rest : Segments}
    → Received size segs buf rest
    → length (join segs) ≡ length buf + length (join rest)
Received-length {buf} {rest} r = ap length r.splits ∙ length-append buf (join rest)

receive_size-le : (left total : ℕ) → receive_size left total ≤ left - total
unfolding receive_size
receive_size-le left total = ground arith

pub receive_size_pos : (left total : ℕ) → total < left → 0 < receive_size left total
unfolding receive_size
receive_size_pos left total h = ground arith

read_more :
    (fuel left total : ℕ) (segs rest : Segments) (buf : Bytes)
    → ltb total left ≡ true
    → recv (receive_size left total) segs ≡ (buf, rest)
    → Received (receive_size left total) segs buf rest
    → ReadsTo
        (read_rest fuel left (total + length buf) rest)
        (left - (total + length buf))
        (join rest)
    → ReadsTo (read_rest (suc fuel) left total segs) (left - total) (join segs)
unfolding read_rest
read_more fuel left total segs rest buf t e r (last, reads, splits, full) =
    let room : length buf ≤ left - total = omega (arith, r.fits, receive_size-le left total) in
    let fewer : left - (total + length buf) ≡ left - total - length buf = omega arith in
    let taken : take (left - total) (join segs)
        ≡ buf ++ take (left - (total + length buf)) (join rest) =
      rw (r.splits, fewer) (take-append_le (left - total) buf (join rest) room) in
    let dropped : drop (left - total) (join segs) ≡ drop (left - (total + length buf)) (join rest) =
      rw (r.splits, fewer) (drop-append_le (left - total) buf (join rest) room) in
    (last, rw (t, e, reads, taken), splits ∙ sym dropped, full)

-- Whatever the cuts, the loop writes exactly the bytes that are left, and takes no more.
pub read_rest-ReadsTo :
    (fuel left total : ℕ) (segs : Segments)
    → AllFull segs
    → left - total < fuel
    → left - total ≤ length (join segs)
    → ReadsTo (read_rest fuel left total segs) (left - total) (join segs)
read_rest-ReadsTo zero left total segs h f l = absurd (omega arith)
read_rest-ReadsTo (suc fuel) left total segs h f l = elim (Bool-cases (ltb total left)) [
  | inr done ↦
      let e : left - total ≡ 0 = ground arith in rw e (segs, unfold read_rest in rw done, refl, h)
  | inl more ↦
      let lt : total < left = ltb→lt total left more in
      let size = receive_size left total in
      let r = recv-Received size segs (receive_size_pos left total lt) h in
      let some_read = r.progress (receive_size_pos left total lt) (omega arith) in
      read_more fuel left total segs (recv size segs).1 (recv size segs).0 more refl r (
        read_rest-ReadsTo fuel left (total + length (recv size segs).0) (recv size segs).1 r.full
          (omega arith) (omega (arith, Received-length r)))
]

-- A stream that ends before the chunk does keeps the loop going for ever: no fuel is enough.
pub read_rest_hangs :
    (fuel left total : ℕ) (segs : Segments)
    → AllFull segs
    → length (join segs) < left - total
    → read_rest fuel left total segs ≡ none
unfolding read_rest
read_rest_hangs zero left total segs h l = refl
read_rest_hangs (suc fuel) left total segs h l =
    let lt : total < left = omega arith in
    let size = receive_size left total in
    let r = recv-Received size segs (receive_size_pos left total lt) h in
    let later =
      read_rest_hangs fuel left (total + length (recv size segs).0) (recv size segs).1 r.full
        (omega (arith, Received-length r)) in
    rw (lt→ltb total left lt, later)

-- The loop from its start, with one unit of fuel more than there are bytes to read.
pub read_rest_all :
    (left : ℕ) (segs : Segments)
    → AllFull segs
    → left ≤ length (join segs)
    → ReadsTo (read_rest (suc left) left 0 segs) left (join segs)
read_rest_all left segs full enough =
    let e : left - 0 ≡ left = omega arith in
    rw e at (read_rest-ReadsTo (suc left) left 0 segs full (omega arith) (omega arith))

pub recv_first :
    (size : ℕ) (s : Bytes) (rest : Segments) → length s ≤ size → recv size (s ∷ rest) ≡ (s, rest)
unfolding recv
recv_first size s rest h = ground arith
