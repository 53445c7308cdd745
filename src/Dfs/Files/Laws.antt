-- ===== src/Dfs/Files/Laws.antt =====
-- What a write does to the directory, and to the shell's answer for a pattern.
use network_systems.Prelude.{
  ◌≡◌, ◌≢◌, refl, true, false, List, [], ◌∷◌, some, arith, Bool-cases, inl, inr, ap,
}
use network_systems.CString.{Bytes, streq, streq_iff, streq_refl}
use network_systems.Dfs.Files.{Files, Shell, names, lookup, store, newest}

pub lookup-store_self :
    (name content : Bytes) (files : Files) → lookup name (store name content files) ≡ some content
lookup-store_self name content [] = rw (streq_refl name)
lookup-store_self name content ((n, old) ∷ files) = elim (Bool-cases (streq n name)) [
  | inl same ↦ rw (same, same)
  | inr other ↦ rw (other, other) (lookup-store_self name content files)
]

pub lookup-store_other :
    (name other content : Bytes) (files : Files)
    → name ≢ other
    → lookup other (store name content files) ≡ lookup other files
lookup-store_other name other content [] ne = ground (arith, streq_iff name other)
lookup-store_other name other content ((n, old) ∷ files) ne =
    ground
      (arith, streq_iff n name, streq_iff n other, lookup-store_other name other content files ne)

-- No name passes the pattern.
abbrev pub NoMatch : Shell → Bytes → List Bytes → Type 0
NoMatch sh pattern [] = Unit
NoMatch sh pattern (n ∷ ns) = (sh.grep pattern n ≡ false) × NoMatch sh pattern ns

pub newest-NoMatch :
    (sh : Shell) (pattern : Bytes) (ns : List Bytes)
    → NoMatch sh pattern ns
    → newest sh pattern ns ≡ []
unfolding newest
newest-NoMatch sh pattern [] h = refl
newest-NoMatch sh pattern (n ∷ ns) h = rw (h.0, newest-NoMatch sh pattern ns h.1)

-- A write whose name does not pass leaves the answer as it was.
pub newest-store_other :
    (sh : Shell) (pattern name content : Bytes) (files : Files)
    → sh.grep pattern name ≡ false
    → newest sh pattern (names (store name content files)) ≡ newest sh pattern (names files)
unfolding newest
newest-store_other sh pattern name content [] h = rw h
newest-store_other sh pattern name content ((n, old) ∷ files) h = elim (Bool-cases (streq n name)) [
  | inl same ↦ rw same
  | inr other ↦ rw (other, newest-store_other sh pattern name content files h)
]

pub NoMatch-store :
    (sh : Shell) (pattern name content : Bytes) (files : Files)
    → sh.grep pattern name ≡ false
    → NoMatch sh pattern (names files)
    → NoMatch sh pattern (names (store name content files))
NoMatch-store sh pattern name content [] h all = (h, tt)
NoMatch-store sh pattern name content ((n, old) ∷ files) h all = elim (Bool-cases (streq n name)) [
  | inl same ↦ rw same all
  | inr other ↦ rw other (all.0, NoMatch-store sh pattern name content files h all.1)
]

-- The first file of a pattern is the answer.
pub newest-store_first :
    (sh : Shell) (pattern name content : Bytes) (files : Files)
    → sh.grep pattern name ≡ true
    → NoMatch sh pattern (names files)
    → newest sh pattern (names (store name content files)) ≡ name
unfolding newest
newest-store_first sh pattern name content [] h all = rw h
newest-store_first sh pattern name content ((n, old) ∷ files) h all =
    elim (Bool-cases (streq n name)) [
      | inl same ↦ cc (ap (sh.grep pattern) ((streq_iff n name).0 same), h, all.0)
      | inr other ↦ rw (other, all.0, newest-store_first sh pattern name content files h all.1)
    ]
