-- ===== src/CString/Search.antt =====
-- `strstr`, `strchr` and `strrchr`: a pointer into the string is the string that starts there.
use network_systems.Prelude.{
  ℕ, ◌≡◌, refl, Bool, true, false, ◌&&◌, [], ◌∷◌, ◌++◌, Option, none, some, arith, ◌==◌,
  if◌then◌else◌,
}
use network_systems.CString.Text.{Bytes, elem}

-- strncmp(s, prefix, strlen(prefix)) == 0
abbrev pub starts_with : Bytes → Bytes → Bool
starts_with s [] = true
starts_with [] (c ∷ p) = false
starts_with (d ∷ s) (c ∷ p) = d == c && starts_with s p

-- strstr(s, needle)
abbrev pub strstr : Bytes → Bytes → Option Bytes
strstr [] needle = if starts_with [] needle then some [] else none
strstr (c ∷ s) needle = if starts_with (c ∷ s) needle then some (c ∷ s) else strstr s needle

-- strstr(s, needle) != NULL
abbrev pub contains : Bytes → Bytes → Bool
contains s needle = elim (strstr s needle) [ none ↦ false | some _ ↦ true ]

-- strchr(s, c)
abbrev pub strchr : Bytes → ℕ → Option Bytes
strchr [] c = none
strchr (d ∷ s) c = if d == c then some (d ∷ s) else strchr s c

-- strrchr(s, c): the last one
abbrev pub strrchr : Bytes → ℕ → Option Bytes
strrchr [] c = none
strrchr (d ∷ s) c = elim (strrchr s c) [
  | some t ↦ some t
  | none ↦ if d == c then some (d ∷ s) else none
]

-- A byte that the needle does not have cuts every match.
starts_with-append :
    (p : Bytes) (y : ℕ) (s needle : Bytes)
    → elem y needle ≡ false
    → starts_with (p ++ y ∷ s) needle ≡ starts_with p needle
starts_with-append p y s [] h = refl
starts_with-append [] y s (c ∷ n) h = ground arith
starts_with-append (d ∷ p) y s (c ∷ n) h = ground (arith, starts_with-append p y s n)

-- The search goes on behind a part with no match and a byte that the needle does not have.
pub strstr_skip :
    (p : Bytes) (y : ℕ) (s needle : Bytes)
    → elem y needle ≡ false
    → strstr p needle ≡ none
    → strstr (p ++ y ∷ s) needle ≡ strstr s needle
strstr_skip [] y s [] h e = ground arith
strstr_skip [] y s (c ∷ n) h e = ground arith
strstr_skip (d ∷ p) y s [] h e = ground arith
strstr_skip (d ∷ p) y s (c ∷ n) h e =
    ground (arith, starts_with-append p y s n, strstr_skip p y s (c ∷ n))

-- The search goes on behind a part that does not have the needle's first byte.
pub strstr_skip_first :
    (p s : Bytes) (c : ℕ) (n : Bytes)
    → elem c p ≡ false
    → strstr (p ++ s) (c ∷ n) ≡ strstr s (c ∷ n)
strstr_skip_first [] s c n h = refl
strstr_skip_first (d ∷ p) s c n h = ground (arith, strstr_skip_first p s c n)

pub starts_with_self : (p s : Bytes) → starts_with (p ++ s) p ≡ true
starts_with_self [] s = ground arith
starts_with_self (c ∷ p) s = ground (arith, starts_with_self p s)

-- A string that begins with the needle has it.
pub contains_prefix : (p s : Bytes) → contains (p ++ s) p ≡ true
contains_prefix [] [] = refl
contains_prefix [] (c ∷ s) = refl
contains_prefix (c ∷ p) s = ground (arith, starts_with_self p s)

pub strchr_absent : (s : Bytes) (c : ℕ) → elem c s ≡ false → strchr s c ≡ none
strchr_absent [] c h = refl
strchr_absent (d ∷ s) c h = ground (arith, strchr_absent s c)

-- The first occurrence stands behind a part that does not have the byte.
pub strchr_first :
    (s rest : Bytes) (c : ℕ) → elem c s ≡ false → strchr (s ++ c ∷ rest) c ≡ some (c ∷ rest)
strchr_first [] rest c h = ground arith
strchr_first (d ∷ s) rest c h = ground (arith, strchr_first s rest c)

pub strrchr_absent : (s : Bytes) (c : ℕ) → elem c s ≡ false → strrchr s c ≡ none
strrchr_absent [] c h = refl
strrchr_absent (d ∷ s) c h = ground (arith, strrchr_absent s c)

-- The last occurrence stands in front of a part that does not have the byte.
pub strrchr_last :
    (s rest : Bytes) (c : ℕ) → elem c rest ≡ false → strrchr (s ++ c ∷ rest) c ≡ some (c ∷ rest)
strrchr_last [] rest c h = ground (arith, strrchr_absent rest c)
strrchr_last (d ∷ s) rest c h = ground (arith, strrchr_last s rest c)
