-- ===== src/CString/Text.antt =====
-- Byte strings, the C string in a buffer, and `strcmp(a, b) == 0`.
use Prim.Native.Char.{code}
use Prim.Native.String.{String}
use network_systems.Prelude.{
  length, ◌≤◌, ℕ, ◌≡◌, refl, ◌↔◌, Bool, true, false, ◌&&◌, ◌||◌, List, [], ◌∷◌, ◌++◌, arith, ◌==◌,
  if◌then◌else◌,
}

abbrev pub Bytes : Type 0
Bytes = List ℕ

-- The code points of a literal: its bytes, if it is ASCII.
abbrev pub codes : String → Bytes
codes String.[] = []
codes (String.◌∷◌ c s) = code c ∷ codes s

-- The C string that a buffer holds: what stands in front of the first NUL.
abbrev pub cstr : Bytes → Bytes
cstr [] = []
cstr (c ∷ s) = if c == 0 then [] else c ∷ cstr s

-- strcmp(a, b) == 0
abbrev pub streq : Bytes → Bytes → Bool
streq [] [] = true
streq (a ∷ s) (b ∷ t) = a == b && streq s t
streq _ _ = false

-- Whether a byte occurs in a string.
abbrev pub elem : ℕ → Bytes → Bool
elem c [] = false
elem c (d ∷ s) = c == d || elem c s

pub streq_iff : (a b : Bytes) → (streq a b ≡ true) ↔ (a ≡ b)
streq_iff (x ∷ a) (y ∷ b) = ground (arith, streq_iff a b)
streq_iff _ _ = ground arith

pub streq_refl : (a : Bytes) → streq a a ≡ true
streq_refl a = (streq_iff a a).1 refl

pub elem-append : (c : ℕ) (s t : Bytes) → elem c (s ++ t) ≡ (elem c s || elem c t)
elem-append c [] t = refl
elem-append c (d ∷ s) t = ground (arith, elem-append c s t)

-- A string with no NUL, followed by a NUL, is read back whole.
pub cstr_terminated : (s rest : Bytes) → elem 0 s ≡ false → cstr (s ++ (0 ∷ rest)) ≡ s
cstr_terminated [] rest h = refl
cstr_terminated (c ∷ s) rest h = ground (arith, cstr_terminated s rest)

pub cstr-append : (s t : Bytes) → elem 0 s ≡ false → cstr (s ++ t) ≡ s ++ cstr t
cstr-append [] t h = refl
cstr-append (c ∷ s) t h = ground (arith, cstr-append s t)

pub cstr_self : (s : Bytes) → elem 0 s ≡ false → cstr s ≡ s
cstr_self [] h = refl
cstr_self (c ∷ s) h = ground (arith, cstr_self s)

pub length-cstr-le : (s : Bytes) → length (cstr s) ≤ length s
length-cstr-le [] = omega arith
length-cstr-le (c ∷ s) = ground (arith, length-cstr-le s)
