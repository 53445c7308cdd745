-- ===== src/Dfs/Files/Newest.antt =====
-- The shell's answer for a pattern when a directory holds several versions: it is the version that
-- `sort -r` puts above all others.
use network_systems.Prelude.{◌≡◌, ◌≢◌, refl, true, false, List, [], ◌∷◌, Bool-cases, ◌⊎◌, inl, inr}
use network_systems.CString.{Bytes, streq, streq_iff}
use network_systems.Dfs.Files.{Files, Shell, names, store, newest, topmost}
use network_systems.Dfs.Files.Laws.{NoMatch}

-- The first line stands above the second, and not the other way round.
abbrev pub Above : Shell → Bytes → Bytes → Type 0
Above sh a b = (sh.above a b ≡ true) × (sh.above b a ≡ false)

-- Each name that passes the pattern stands below `name`.
abbrev pub Beneath : Shell → Bytes → Bytes → List Bytes → Type 0
Beneath sh pattern name [] = Unit
Beneath sh pattern name (n ∷ ns) =
    (sh.grep pattern n ≡ true → Above sh name n) × Beneath sh pattern name ns

-- Each name that passes the pattern is `name` or stands below it.
abbrev pub Topped : Shell → Bytes → Bytes → List Bytes → Type 0
Topped sh pattern name [] = Unit
Topped sh pattern name (n ∷ ns) =
    (sh.grep pattern n ≡ true → (n ≡ name) ⊎ Above sh name n) × Topped sh pattern name ns

pub NoMatch-Beneath :
    (sh : Shell) (pattern name : Bytes) (ns : List Bytes)
    → NoMatch sh pattern ns
    → Beneath sh pattern name ns
NoMatch-Beneath sh pattern name [] h = tt
NoMatch-Beneath sh pattern name (n ∷ ns) h =
    (λ e. cc (e, h.0), NoMatch-Beneath sh pattern name ns h.1)

pub Beneath-store_other :
    (sh : Shell) (pattern name other content : Bytes) (files : Files)
    → sh.grep pattern other ≡ false
    → Beneath sh pattern name (names files)
    → Beneath sh pattern name (names (store other content files))
Beneath-store_other sh pattern name other content [] h all = (λ e. cc (e, h), tt)
Beneath-store_other sh pattern name other content ((n, old) ∷ files) h all =
    elim (Bool-cases (streq n other)) [
      | inl same ↦ rw same all
      | inr ne ↦ rw ne (all.0, Beneath-store_other sh pattern name other content files h all.1)
    ]

pub Topped-store_other :
    (sh : Shell) (pattern name other content : Bytes) (files : Files)
    → sh.grep pattern other ≡ false
    → Topped sh pattern name (names files)
    → Topped sh pattern name (names (store other content files))
Topped-store_other sh pattern name other content [] h all = (λ e. cc (e, h), tt)
Topped-store_other sh pattern name other content ((n, old) ∷ files) h all =
    elim (Bool-cases (streq n other)) [
      | inl same ↦ rw same all
      | inr ne ↦ rw ne (all.0, Topped-store_other sh pattern name other content files h all.1)
    ]

Beneath-Topped :
    (sh : Shell) (pattern name : Bytes) (ns : List Bytes)
    → Beneath sh pattern name ns
    → Topped sh pattern name ns
Beneath-Topped sh pattern name [] h = tt
Beneath-Topped sh pattern name (n ∷ ns) h =
    ((λ e. inr (h.0 e)), Beneath-Topped sh pattern name ns h.1)

pub Topped-store :
    (sh : Shell) (pattern name content : Bytes) (files : Files)
    → Beneath sh pattern name (names files)
    → Topped sh pattern name (names (store name content files))
Topped-store sh pattern name content [] all = (λ e. inl refl, tt)
Topped-store sh pattern name content ((n, old) ∷ files) all = elim (Bool-cases (streq n name)) [
  | inl same ↦
      rw same
        ((λ e. inl ((streq_iff n name).0 same)), Beneath-Topped sh pattern name (names files) all.1)
  | inr ne ↦ rw ne ((λ e. inr (all.0 e)), Topped-store sh pattern name content files all.1)
]

-- What is below one version is below each newer one.
pub Topped-Beneath :
    (sh : Shell) (pattern name newer : Bytes) (ns : List Bytes)
    → ((a b c : Bytes) → Above sh a b → Above sh b c → Above sh a c)
    → Above sh newer name
    → Topped sh pattern name ns
    → Beneath sh pattern newer ns
Topped-Beneath sh pattern name newer [] trans up all = tt
Topped-Beneath sh pattern name newer (n ∷ ns) trans up all = (
  λ e. elim (all.0 e) [ inl same ↦ rw same up | inr below ↦ trans newer name n up below ],
  Topped-Beneath sh pattern name newer ns trans up all.1,
)

topmost-Above :
    (sh : Shell) (name n : Bytes) → name ≢ [] → sh.above name n ≡ true → topmost sh n name ≡ name
topmost-Above sh [] n ne h = absurd (ne refl)
topmost-Above sh (c ∷ name) n ne h = rw h refl

-- A file whose name stands above all others of the pattern is the answer once it is stored.
pub newest-store_above :
    (sh : Shell) (pattern name content : Bytes) (files : Files)
    → sh.grep pattern name ≡ true
    → name ≢ []
    → Beneath sh pattern name (names files)
    → newest sh pattern (names (store name content files)) ≡ name
unfolding newest
newest-store_above sh pattern name content [] h ne all = rw h
newest-store_above sh pattern name content ((n, old) ∷ files) h ne all =
    elim (Bool-cases (streq n name)) [
      | inl same ↦
          let e : n ≡ name = (streq_iff n name).0 same in
          let self : Above sh name name = rw e at (all.0 (rw e h)) in cc (self.0, self.1)
      | inr other ↦
          let rest = newest-store_above sh pattern name content files h ne all.1 in
          rw (other, rest)
            (elim (Bool-cases (sh.grep pattern n)) [
              | inl passes ↦ rw passes (topmost-Above sh name n ne (all.0 passes).0)
              | inr fails ↦ rw fails refl
            ])
    ]
