-- ===== src/CString/Token.antt =====
-- `strtok`. Its state, a pointer into the buffer, is the string that starts there: the scan of a
-- call gives the token and the string behind the delimiter that it overwrote.
use network_systems.Prelude.{
  ==→≡, ℕ, ◌≡◌, ◌≢◌, refl, Bool, true, false, [], ◌∷◌, ◌++◌, Option, none, some, arith,
  if◌then◌else◌,
}
use network_systems.CString.Text.{Bytes, elem}

-- s + strspn(s, delims)
abbrev pub skip : Bytes → Bytes → Bytes
skip delims [] = []
skip delims (c ∷ s) = if elem c delims then skip delims s else c ∷ s

-- the first strcspn(s, delims) bytes
abbrev pub until : Bytes → Bytes → Bytes
until delims [] = []
until delims (c ∷ s) = if elem c delims then [] else c ∷ until delims s

-- what stands behind the first delimiter, or the end of the string
abbrev pub after : Bytes → Bytes → Bytes
after delims [] = []
after delims (c ∷ s) = if elem c delims then s else after delims s

pub record Scan : Type 0 where
  pub token : Option Bytes
  pub saved : Bytes

abbrev scan : Bytes → Bytes → Scan
scan delims [] = record { token = none; saved = [] }
scan delims (c ∷ s) = record { token = some (until delims (c ∷ s)); saved = after delims (c ∷ s) }

-- strtok(NULL, delims) where `s` starts at the saved pointer; strtok(s, delims) too.
abbrev pub strtok : Bytes → Bytes → Scan
strtok delims s = scan delims (skip delims s)

-- The C string that is left at `s` after strtok(s, delims): the delimiters that were skipped stay,
-- and the one behind the token is a NUL now.
abbrev pub strtok_left : Bytes → Bytes → Bytes
strtok_left delims [] = []
strtok_left delims (c ∷ s) =
    if elem c delims then c ∷ strtok_left delims s else until delims (c ∷ s)

-- The bytes from `s` to the end of its buffer after strtok(s, delims): a NUL stands in place of
-- the delimiter behind the token.
abbrev cut : Bytes → Bytes → Bytes
cut delims [] = []
cut delims (c ∷ s) = if elem c delims then 0 ∷ s else c ∷ cut delims s

abbrev pub strtok_write : Bytes → Bytes → Bytes
strtok_write delims [] = []
strtok_write delims (c ∷ s) =
    if elem c delims then c ∷ strtok_write delims s else cut delims (c ∷ s)

-- No byte of the string is a delimiter.
abbrev pub avoids : Bytes → Bytes → Bool
avoids delims [] = true
avoids delims (c ∷ s) = if elem c delims then false else avoids delims s

pub until-avoids :
    (delims s : Bytes) (d : ℕ) (rest : Bytes)
    → avoids delims s ≡ true
    → elem d delims ≡ true
    → until delims (s ++ d ∷ rest) ≡ s
until-avoids delims [] d rest h e = ground arith
until-avoids delims (c ∷ s) d rest h e = ground (arith, until-avoids delims s d rest)

pub after-avoids :
    (delims s : Bytes) (d : ℕ) (rest : Bytes)
    → avoids delims s ≡ true
    → elem d delims ≡ true
    → after delims (s ++ d ∷ rest) ≡ rest
after-avoids delims [] d rest h e = ground arith
after-avoids delims (c ∷ s) d rest h e = ground (arith, after-avoids delims s d rest)

-- A non-empty string of no delimiters, with a delimiter behind it, is the next token.
pub strtok_token :
    (delims s : Bytes) (d : ℕ) (rest : Bytes)
    → s ≢ []
    → avoids delims s ≡ true
    → elem d delims ≡ true
    → strtok delims (s ++ d ∷ rest) ≡ record { token = some s; saved = rest }
strtok_token delims [] d rest n h e = absurd (n refl)
strtok_token delims (c ∷ s) d rest n h e =
    ground (arith, until-avoids delims s d rest, after-avoids delims s d rest)

pub strtok_left_token :
    (delims s : Bytes) (d : ℕ) (rest : Bytes)
    → s ≢ []
    → avoids delims s ≡ true
    → elem d delims ≡ true
    → strtok_left delims (s ++ d ∷ rest) ≡ s
strtok_left_token delims [] d rest n h e = absurd (n refl)
strtok_left_token delims (c ∷ s) d rest n h e = ground (arith, until-avoids delims s d rest)

pub avoids_single : (d : ℕ) (s : Bytes) → elem d s ≡ false → avoids (d ∷ []) s ≡ true
avoids_single d [] h = refl
avoids_single d (c ∷ s) h = ground (arith, avoids_single d s)

pub elem-avoids :
    (d : ℕ) (delims s : Bytes) → avoids delims s ≡ true → elem d delims ≡ true → elem d s ≡ false
elem-avoids d delims [] h e = refl
elem-avoids d delims (c ∷ s) h e = ground (arith, elem-avoids d delims s, ==→≡ d c)

until_whole : (delims s : Bytes) → avoids delims s ≡ true → until delims s ≡ s
until_whole delims [] h = refl
until_whole delims (c ∷ s) h = ground (arith, until_whole delims s)

-- A string of no delimiters is left as it is.
pub strtok_left_whole : (delims s : Bytes) → avoids delims s ≡ true → strtok_left delims s ≡ s
strtok_left_whole delims [] h = refl
strtok_left_whole delims (c ∷ s) h = ground (arith, until_whole delims (c ∷ s))

skip_whole : (delims s : Bytes) → avoids delims s ≡ true → skip delims s ≡ s
skip_whole delims [] h = refl
skip_whole delims (c ∷ s) h = ground arith

after_whole : (delims s : Bytes) → avoids delims s ≡ true → after delims s ≡ []
after_whole delims [] h = refl
after_whole delims (c ∷ s) h = ground (arith, after_whole delims s)

-- A non-empty string of no delimiters is the only token.
pub strtok_whole :
    (delims s : Bytes)
    → s ≢ []
    → avoids delims s ≡ true
    → strtok delims s ≡ record { token = some s; saved = [] }
strtok_whole delims [] n h = absurd (n refl)
strtok_whole delims (c ∷ s) n h =
    rw (skip_whole delims (c ∷ s) h, until_whole delims (c ∷ s) h, after_whole delims (c ∷ s) h)
      refl
