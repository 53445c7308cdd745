-- ===== src/Dfs/Locking/Steps.antt =====
-- The invariant of the lock, the directory and the threads of PA4/server/dfs.c, through their calls.
use network_systems.Prelude.{
  ℕ, ◌==◌, ◌≡◌, ◌≢◌, refl, sym, ap, ◌∙◌, true, false, Option, none, some, List, [], arith, ◌⊎◌, inl,
  inr, Bool-cases,
}
use network_systems.Dfs.Files.{Files, Shell}
use network_systems.Dfs.Locking.{
  Put, Thread, has_lock, after_lock, after_unlock, Call, Shared, shared, update, Step, call, lock,
  unlock, Reach, here, later, Anyone, start,
}
use network_systems.Dfs.Locking.Serial.{Serial, no_put, Extends, no_more, Extends-trans}
use network_systems.Dfs.Locking.Good.{
  some-inj, Fine, Fine-Grows, Fine-after_lock, Fine-after_unlock, has_lock-Call, Call-unheld,
  Call-Grows, Fine-Call, Moved,
}

-- A thread is the one that has moved, or another.
pub update-cases :
    (i j : ℕ) (p : Thread) (threads : ℕ → Thread)
    → ((j ≡ i) × (update i p threads j ≡ p)) ⊎ ((j ≢ i) × (update i p threads j ≡ threads j))
update-cases i j p threads = elim (Bool-cases (j == i)) [
  | inl same ↦ inl (ground arith, rw same refl)
  | inr other ↦ inr (ground arith, rw other refl)
]

pub none-some {ℓ} : {A : Type ℓ} {a : A} → none ≢ some a
none-some e = cc e

module _ (sh : Shell) (puts : List Put) (initial : Files) where
  -- The owner of the lock is the one thread between its lock and its unlock; when there is none, the
  -- directory is what the puts of the log have left.
  pub record Good (log : List Put) (files : Files) (owner : Option ℕ) (threads : ℕ → Thread)
      : Type 0 where
    pub owned : (j : ℕ) → has_lock (threads j) ≡ true → owner ≡ some j
    pub owns : (j : ℕ) → owner ≡ some j → has_lock (threads j) ≡ true
    pub quiet : owner ≡ none → Serial puts initial log files
    pub fine : (j : ℕ) → Fine sh puts initial log files (threads j)

  abbrev pub AllGood : List Put → Shared → Type 0
  AllGood log (shared files owner threads) = Good log files owner threads

  free_thread :
      {log : List Put} {files : Files} {p : Thread} {owner : Option ℕ} {threads : ℕ → Thread}
      (i : ℕ)
      → Good log files owner threads
      → threads i ≡ p
      → owner ≢ some i
      → has_lock p ≡ false
  free_thread {p} i g e ne = elim (Bool-cases (has_lock p)) [
    | inl held ↦ absurd (ne (g.owned i (ap has_lock e ∙ held)))
    | inr free ↦ free
  ]

  -- The lock keeps the other threads out of a call that writes.
  pub unmoved :
      {log : List Put} {files files' : Files} {p p' : Thread} {owner : Option ℕ}
      {threads : ℕ → Thread} (i : ℕ)
      → Good log files owner threads
      → threads i ≡ p
      → Call sh puts files p files' p'
      → owner ≢ some i
      → files' ≡ files
  unmoved i g e c ne = Call-unheld sh puts initial c (free_thread i g e ne)

  -- A log that goes on from the first, after a step.
  abbrev pub Later : List Put → Shared → Type 0
  Later log t = (log' : List Put) × Extends log log' × AllGood log' t

  call-Good :
      {log : List Put} {files files' : Files} {p p' : Thread} {owner : Option ℕ}
      {threads : ℕ → Thread} (i : ℕ)
      → threads i ≡ p
      → Call sh puts files p files' p'
      → Good log files owner threads
      → Later log (shared files' owner (update i p' threads))
  call-Good {log} {files} {files'} {p} {p'} {owner} {threads} i e c g = (
    m.log',
    m.extends,
    record {
      owned = λ j h. elim (update-cases i j p' threads) [
        | inl (k, u) ↦ rw k (g.owned i (ap has_lock e ∙ keeps ∙ sym (ap has_lock u) ∙ h))
        | inr (k, u) ↦ g.owned j (sym (ap has_lock u) ∙ h)
      ];
      owns = λ j o. elim (update-cases i j p' threads) [
        | inl (k, u) ↦ ap has_lock u ∙ sym keeps ∙ sym (ap has_lock e) ∙ g.owns i (o ∙ ap some k)
        | inr (k, u) ↦ ap has_lock u ∙ g.owns j o
      ];
      quiet = λ o.
          let ne : owner ≢ some i = λ q. none-some (sym o ∙ q) in
          rw (unmoved i g e c ne, m.free (free_thread i g e ne)) (g.quiet o);
      fine = λ j. elim (update-cases i j p' threads) [
        | inl (k, u) ↦ rw u m.fine
        | inr (k, u) ↦ rw u (other j k)
      ];
    },
  )
    where
      m : Moved sh puts initial log p files' p'
      m = Fine-Call sh puts initial c (rw e at (g.fine i))

      keeps : has_lock p ≡ has_lock p'
      keeps = has_lock-Call sh puts initial c

      other : (j : ℕ) → j ≢ i → Fine sh puts initial m.log' files' (threads j)
      other j k = elim (Bool-cases (has_lock (threads j))) [
        | inl held ↦
            let ne : owner ≢ some i = λ q. k (some-inj (sym (g.owned j held) ∙ q)) in
            rw (unmoved i g e c ne, m.free (free_thread i g e ne)) (g.fine j)
        | inr free ↦
            Fine-Grows sh puts initial log m.log' files files' (threads j) free
              (Call-Grows sh puts initial c) m.extends (g.fine j)
      ]

  lock-Good :
      {log : List Put} {files : Files} {threads : ℕ → Thread} {p : Thread} (i : ℕ)
      → after_lock (threads i) ≡ some p
      → Good log files none threads
      → Good log files (some i) (update i p threads)
  lock-Good {log} {files} {threads} {p} i e g =
      let (f, free, held) =
        Fine-after_lock sh puts initial log files (threads i) p e (g.quiet refl) (g.fine i) in
      record {
        owned = λ j h. elim (update-cases i j p threads) [
          | inl (k, u) ↦ ap some (sym k)
          | inr (k, u) ↦ absurd (none-some (g.owned j (sym (ap has_lock u) ∙ h)))
        ];
        owns = λ j o. elim (update-cases i j p threads) [
          | inl (k, u) ↦ ap has_lock u ∙ held
          | inr (k, u) ↦ absurd (k (sym (some-inj o)))
        ];
        quiet = λ o. absurd (none-some (sym o));
        fine = λ j. elim (update-cases i j p threads) [
          | inl (k, u) ↦ rw u f
          | inr (k, u) ↦ rw u (g.fine j)
        ];
      }

  unlock-Good :
      {log : List Put} {files : Files} {owner : Option ℕ} {threads : ℕ → Thread} {p : Thread}
      (i : ℕ)
      → after_unlock (threads i) ≡ some p
      → Good log files owner threads
      → Good log files none (update i p threads)
  unlock-Good {log} {files} {owner} {threads} {p} i e g =
      let (s, f, held, free) =
        Fine-after_unlock sh puts initial log files (threads i) p e (g.fine i) in
      record {
        owned = λ j h. elim (update-cases i j p threads) [
          | inl (k, u) ↦ cc (sym (ap has_lock u) ∙ h, free)
          | inr (k, u) ↦
              absurd (k (some-inj (sym (g.owned j (sym (ap has_lock u) ∙ h)) ∙ g.owned i held)))
        ];
        owns = λ j o. absurd (none-some o);
        quiet = λ o. s;
        fine = λ j. elim (update-cases i j p threads) [
          | inl (k, u) ↦ rw u f
          | inr (k, u) ↦ rw u (g.fine j)
        ];
      }

  pub Step-Good :
      {log : List Put} (i : ℕ) {s t : Shared} → Step sh puts i s t → AllGood log s → Later log t
  Step-Good i (call e c) g = call-Good i e c g
  Step-Good {log} i (lock e) g = (log, no_more, lock-Good i e g)
  Step-Good {log} i (unlock e) g = (log, no_more, unlock-Good i e g)

  pub Reach-Later :
      {log : List Put} {Moves : ℕ → Type 0} {s t : Shared}
      → AllGood log s
      → Reach sh puts Moves s t
      → Later log t
  Reach-Later {log} g here = (log, no_more, g)
  Reach-Later g (later r i m st) =
      let (log', x, g') = Reach-Later g r in
      let (log'', y, g'') = Step-Good i st g' in (log'', Extends-trans x y, g'')

  start-Good : AllGood [] (start initial)
  start-Good = record {
    owned = λ j h. cc h;
    owns = λ j o. absurd (none-some o);
    quiet = λ o. no_put;
    fine = λ j. tt;
  }

  pub Reach-Good :
      {s : Shared} → Reach sh puts Anyone (start initial) s → (log : List Put) × AllGood log s
  Reach-Good r = let (log, x, g) = Reach-Later start-Good r in (log, g)
