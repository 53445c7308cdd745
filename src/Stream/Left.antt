-- ===== src/Stream/Left.antt =====
-- About what the reading loop leaves of a stream.
use network_systems.Prelude.{
  ℕ, zero, suc, ◌+◌, ◌<◌, ◌≤◌, ◌≡◌, refl, [], Option, none, some, arith, length, join, ltb,
  Bool-cases, inl, inr, ltb→lt,
}
use network_systems.CString.{Bytes}
use network_systems.Stream.{Segments, recv, receive_size, read_rest, prepend}
use network_systems.Stream.Laws.{AllFull, recv-Received, Received-length, receive_size_pos}

-- The second stream is what is left of the first.
abbrev pub Left : Segments → Segments → Type 0
Left a b = AllFull a → AllFull b × (length (join b) ≤ length (join a))

pub recv-Left : (size : ℕ) (segs : Segments) → 0 < size → Left segs (recv size segs).1
recv-Left size segs h full =
    let r = recv-Received size segs h full in (r.full, omega (arith, Received-length r))

abbrev pub rest_of : Option (Bytes × Segments) → Segments
rest_of none = []
rest_of (some (more, rest)) = rest

rest_of-prepend :
    (buf : Bytes) (r : Option (Bytes × Segments)) → rest_of (prepend buf r) ≡ rest_of r
rest_of-prepend buf none = refl
rest_of-prepend buf (some (more, rest)) = refl

Left-trans : (a b c : Segments) → Left a b → Left b c → Left a c
Left-trans a b c f g full =
    let (full₁, less₁) = f full in let (full₂, less₂) = g full₁ in (full₂, omega arith)

pub read_rest-Left :
    (fuel left total : ℕ) (segs : Segments) → Left segs (rest_of (read_rest fuel left total segs))
unfolding read_rest
read_rest-Left zero left total segs = λ full. (tt, omega arith)
read_rest-Left (suc fuel) left total segs = elim (Bool-cases (ltb total left)) [
  | inr done ↦ rw done (λ full. (full, omega arith))
  | inl more ↦
      let size = receive_size left total in
      let (buf, segs') = recv size segs in
      rw (more, rest_of-prepend buf (read_rest fuel left (total + length buf) segs'))
        (Left-trans segs segs' _
          (recv-Left size segs (receive_size_pos left total (ltb→lt total left more)))
          (read_rest-Left fuel left (total + length buf) segs'))
]
