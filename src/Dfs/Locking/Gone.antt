-- ===== src/Dfs/Locking/Gone.antt =====
-- A put of PA4/server/dfs.c whose client goes before its chunk has come, and all that any threads do
-- from then on.
use network_systems.Prelude.{ℕ, ◌≡◌, refl, sym, ap, ◌∙◌, true, Option, none, some, List, inl, inr}
use network_systems.Dfs.Files.{Files, Shell}
use network_systems.Dfs.Locking.{
  Put, Thread, looping, has_lock, is_looping, after_lock, after_unlock, Call, recv_again,
  flush_looping, Shared, shared, Step, call, lock, unlock, Reach, here, later, Anyone, start,
}
use network_systems.Dfs.Locking.Good.{some-inj}
use network_systems.Dfs.Locking.Steps.{update-cases, none-some, AllGood, Step-Good, Reach-Good}
use network_systems.Dfs.Locking.Stalled.{Call-after_lock, unlock-owner}

looping-has_lock : (p : Thread) → is_looping p ≡ true → has_lock p ≡ true
looping-has_lock (looping name pending) e = refl
looping-has_lock p e = cc e

looping-after_unlock : (p : Thread) → is_looping p ≡ true → after_unlock p ≡ none
looping-after_unlock (looping name pending) e = refl
looping-after_unlock p e = cc e

module _ (sh : Shell) (puts : List Put) (initial : Files) where
  looping-Call :
      {files files' : Files} {p p' : Thread}
      → Call sh puts files p files' p'
      → is_looping p ≡ true
      → is_looping p' ≡ true
  looping-Call recv_again e = refl
  looping-Call (flush_looping n look) e = refl
  looping-Call c e = cc e

  -- Thread `i` loops with the lock, and who waited for the lock still does.
  abbrev pub Stuck : ℕ → (ℕ → Thread) → Shared → Type 0
  Stuck i threads (shared files' owner' threads') =
      (is_looping (threads' i) ≡ true)
      × (owner' ≡ some i)
      × ((j : ℕ) (p : Thread) → after_lock (threads j) ≡ some p → threads' j ≡ threads j)

  Step-Stuck :
      (log : List Put) (threads : ℕ → Thread) (i k : ℕ) {s t : Shared}
      → Step sh puts k s t
      → AllGood sh puts initial log s
      → Stuck i threads s
      → Stuck i threads t
  Step-Stuck log threads i k (call {threads = threads'} {p} {p'} e c) g (l, o, w) = (
    elim (update-cases k i p' threads') [
      | inl (q, u) ↦
          ap is_looping u ∙ looping-Call c (ap is_looping (sym e ∙ ap threads' (sym q)) ∙ l)
      | inr (q, u) ↦ ap is_looping u ∙ l
    ],
    o,
    λ j q h. elim (update-cases k j p' threads') [
      | inl (r, u) ↦ absurd (
          none-some (
            sym (Call-after_lock sh puts initial c)
            ∙ ap after_lock (sym e ∙ ap threads' (sym r) ∙ w j q h)
            ∙ h))
      | inr (r, u) ↦ u ∙ w j q h
    ],
  )
  Step-Stuck log threads i k (lock e) g (l, o, w) = absurd (none-some o)
  Step-Stuck log threads i k (unlock {files} {threads = threads'} {p} e) g (l, o, w) =
      let same : k ≡ i = some-inj (sym (unlock-owner sh puts initial log k e g) ∙ o) in
      absurd (
        none-some (
          sym (looping-after_unlock (threads' i) l)
          ∙ ap (λ j. after_unlock (threads' j)) (sym same)
          ∙ e))

  Reach-Stuck :
      (log : List Put) (threads : ℕ → Thread) (i : ℕ) {s t : Shared}
      → AllGood sh puts initial log s
      → Stuck i threads s
      → Reach sh puts Anyone s t
      → ((log' : List Put) × AllGood sh puts initial log' t) × Stuck i threads t
  Reach-Stuck log threads i g k here = ((log, g), k)
  Reach-Stuck log threads i g k (later r j m st) =
      let ((log', g'), k') = Reach-Stuck log threads i g k r in
      let (log'', x, g'') = Step-Good sh puts initial j st g' in
      ((log'', g''), Step-Stuck log' threads i j st g' k')

  -- Once thread `i` is in the reading loop of a put whose client has gone, it is there, and owns
  -- `file_lock`, in every state that any calls of any threads lead to, and a thread `j` that waits
  -- for the lock to put or to get still does.
  pub looping-Reach :
      (files files' : Files) (owner owner' : Option ℕ) (threads threads' : ℕ → Thread) (i j : ℕ)
      (p : Thread)
      → Reach sh puts Anyone (start initial) (shared files owner threads)
      → is_looping (threads i) ≡ true
      → after_lock (threads j) ≡ some p
      → Reach sh puts Anyone (shared files owner threads) (shared files' owner' threads')
      → (is_looping (threads' i) ≡ true) × (owner' ≡ some i) × (threads' j ≡ threads j)
  looping-Reach files files' owner owner' threads threads' i j p past gone waits r =
      let (log, g) = Reach-Good sh puts initial past in
      let owned : owner ≡ some i = g.owned i (looping-has_lock (threads i) gone) in
      let (l, o, w) = (Reach-Stuck log threads i g (gone, owned, λ j p l. refl) r).1 in
      (l, o, w j p waits)
