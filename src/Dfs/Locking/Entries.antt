-- ===== src/Dfs/Locking/Entries.antt =====
-- The entries of the directory of PA4/server/dfs.c: a write keeps each, and the shell gives one.
use network_systems.Prelude.{
  ◌≡◌, ◌≢◌, refl, sym, ap, ◌∙◌, true, [], ◌∷◌, some, ◌⊎◌, Bool-cases, inl, inr,
}
use network_systems.CString.{Bytes, contains, streq, streq_iff, streq_refl}
use network_systems.Dfs.Files.{Files, Shell, names, lookup, store, newest, topmost}
use network_systems.Dfs.Files.Laws.{lookup-store_self, lookup-store_other}
use network_systems.Dfs.Service.{file_chunk}
use network_systems.Dfs.Locking.{newest_entry}

-- The directory has the entry.
abbrev pub Has : Bytes → Files → Type 0
Has name files = (content : Bytes) × (lookup name files ≡ some content)

-- No entry goes.
abbrev pub Grows : Files → Files → Type 0
Grows files files' = (name : Bytes) → Has name files → Has name files'

pub Grows-store : (name content : Bytes) (files : Files) → Grows files (store name content files)
Grows-store name content files other (c, e) = elim (Bool-cases (streq name other)) [
  | inl same ↦
      let k : name ≡ other = (streq_iff name other).0 same in
      (content, rw (sym k) (lookup-store_self name content files))
  | inr ne ↦
      let k : name ≢ other = λ q. cc (streq_refl name, q, ne) in
      (c, lookup-store_other name other content files k ∙ e)
]

Has-first : (name content : Bytes) (files : Files) → Has name ((name, content) ∷ files)
Has-first name content files = (content, rw (streq_refl name) refl)

Has-later :
    (other content name : Bytes) (files : Files)
    → Has name files
    → Has name ((other, content) ∷ files)
Has-later other content name files (c, e) = elim (Bool-cases (streq other name)) [
  | inl same ↦ (content, rw same refl)
  | inr ne ↦ (c, rw ne e)
]

Has-same : (name other : Bytes) (files : Files) → name ≡ other → Has other files → Has name files
Has-same name other files e (c, k) = (c, ap (λ n. lookup n files) e ∙ k)

topmost-cases :
    (sh : Shell) (line best : Bytes) → (topmost sh line best ≡ line) ⊎ (topmost sh line best ≡ best)
topmost-cases sh line [] = inl refl
topmost-cases sh line (b ∷ best) = elim (Bool-cases (sh.above (b ∷ best) line)) [
  | inl up ↦ inr (rw up refl)
  | inr down ↦ inl (rw down refl)
]

-- The shell's answer is an entry or nothing.
newest-Has :
    (sh : Shell) (pattern : Bytes) (files : Files)
    → (newest sh pattern (names files) ≡ []) ⊎ Has (newest sh pattern (names files)) files
unfolding newest
newest-Has sh pattern [] = inl refl
newest-Has sh pattern ((n, c) ∷ files) =
    let best = newest sh pattern (names files) in
    let all = newest sh pattern (names ((n, c) ∷ files)) in
    let as_rest : all ≡ best → (all ≡ []) ⊎ Has all ((n, c) ∷ files) = λ e.
      elim (newest-Has sh pattern files) [
        | inl nothing ↦ inl (e ∙ nothing)
        | inr entry ↦ inr (Has-same all best ((n, c) ∷ files) e (Has-later n c best files entry))
      ] in
    elim (Bool-cases (sh.grep pattern n)) [
      | inl passes ↦ elim (topmost-cases sh n best) [
        | inl e ↦
            let top : all ≡ n = rw passes e in
            inr (Has-same all n ((n, c) ∷ files) top (Has-first n c files))
        | inr e ↦ as_rest (rw passes e)
      ]
      | inr fails ↦ as_rest (rw fails refl)
    ]

-- No text is found in an empty answer, since a pattern has its dash.
pub newest_entry-Has :
    (sh : Shell) (filename chunk : Bytes) (files : Files)
    → contains (newest_entry sh filename chunk files) (file_chunk filename chunk) ≡ true
    → Has (newest_entry sh filename chunk files) files
newest_entry-Has sh filename chunk files h =
    elim (newest-Has sh (file_chunk filename chunk) files) [
      | inl nothing ↦ absurd (nowhere filename (rw nothing at h))
      | inr entry ↦ entry
    ]
  where
    nowhere : (name : Bytes) → contains [] (file_chunk name chunk) ≢ true
    nowhere [] e = cc e
    nowhere (c ∷ name) e = cc e
