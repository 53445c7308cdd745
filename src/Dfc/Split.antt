-- ===== src/Dfc/Split.antt =====
-- The four chunks into which a put divides its file.
use network_systems.Prelude.{
  ℕ, ◌-◌, ◌*◌, ◌/◌, ◌≡◌, ◌++◌, arith, if◌then◌else◌, ◌==◌, length, drop, take-append-drop, take_all,
  length-take, length-drop,
}
use network_systems.CString.{Bytes}
use network_systems.Dfc.Put.{Parts, split}

-- The part that a digit names.
abbrev pub part_of : Parts → ℕ → Bytes
part_of p c =
    if c == b'1' then p.p1 else if c == b'2' then p.p2 else if c == b'3' then p.p3 else p.p4

-- The four parts are the file, in order.
pub split-join :
    (file : Bytes)
    → (split file).p1 ++ ((split file).p2 ++ ((split file).p3 ++ (split file).p4)) ≡ file
unfolding split
split-join file =
    let s = length file / 4 in
    let file₁ = drop s file in
    let file₂ = drop s file₁ in
    let file₃ = drop s file₂ in
    rw
      (take_all (length file - 3 * (length file / 4)) file₃
        (omega (arith, length-drop s file, length-drop s file₁, length-drop s file₂)))
      (rw (take-append-drop s file₂, take-append-drop s file₁, take-append-drop s file))

-- The lengths of the parts: the last one takes what does not divide by four.
pub length-split :
    (file : Bytes)
    → (length (split file).p1 ≡ length file / 4)
      × (length (split file).p2 ≡ length file / 4)
      × (length (split file).p3 ≡ length file / 4)
      × (length (split file).p4 ≡ length file - 3 * (length file / 4))
unfolding split
length-split file =
    let s = length file / 4 in
    let file₁ = drop s file in
    let file₂ = drop s file₁ in
    let file₃ = drop s file₂ in
    (
      omega (arith, length-take s file),
      omega (arith, length-take s file₁, length-drop s file),
      omega (arith, length-take s file₂, length-drop s file₁, length-drop s file),
      omega (
        arith,
        length-take (length file - 3 * (length file / 4)) file₃,
        length-drop s file,
        length-drop s file₁,
        length-drop s file₂,
      ),
    )
