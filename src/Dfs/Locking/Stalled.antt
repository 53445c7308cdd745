-- ===== src/Dfs/Locking/Stalled.antt =====
-- A thread of PA4/server/dfs.c that has `file_lock` and makes no call, and what the others do.
use network_systems.Prelude.{
  ℕ, ◌≡◌, ◌≢◌, refl, sym, ap, ◌∙◌, true, Option, none, some, List, inl, inr,
}
use network_systems.Dfs.Files.{Files, Shell}
use network_systems.Dfs.Locking.{
  after_unlock, Put, Thread, has_lock, after_lock, Call, request_put, Shared, shared, Step, call,
  lock, unlock, Reach, here, later, Anyone, Others, start,
}
use network_systems.Dfs.Locking.Good.{some-inj, Fine-after_unlock}
use network_systems.Dfs.Locking.Steps.{
  Good, update-cases, none-some, AllGood, unmoved, Step-Good, Reach-Good,
}

module _ (sh : Shell) (puts : List Put) (initial : Files) where
  -- In front of its lock a thread has no other call.
  pub Call-after_lock :
      {files files' : Files} {p p' : Thread} → Call sh puts files p files' p' → after_lock p ≡ none
  Call-after_lock (request_put m) = refl
  Call-after_lock c = refl

  -- Thread `i` has the lock, the files are as they were, and who waits for the lock still does.
  abbrev pub Kept : ℕ → Files → (ℕ → Thread) → Shared → Type 0
  Kept i files threads (shared files' owner' threads') =
      (files' ≡ files)
      × (owner' ≡ some i)
      × ((j : ℕ) (p : Thread) → after_lock (threads j) ≡ some p → threads' j ≡ threads j)

  -- Only the owner gives the lock back.
  pub unlock-owner :
      (log : List Put) {files : Files} {owner : Option ℕ} {threads : ℕ → Thread} {p : Thread}
      (k : ℕ)
      → after_unlock (threads k) ≡ some p
      → Good sh puts initial log files owner threads
      → owner ≡ some k
  unlock-owner log {files} {threads} {p} k e g =
      let (serial, fine, held, free) =
        Fine-after_unlock sh puts initial log files (threads k) p e (g.fine k) in
      g.owned k held

  Step-Kept :
      (log : List Put) (files : Files) (threads : ℕ → Thread) (i k : ℕ) {s t : Shared}
      → k ≢ i
      → Step sh puts k s t
      → AllGood sh puts initial log s
      → Kept i files threads s
      → Kept i files threads t
  Step-Kept log files threads i k ne (call {threads = threads'} {p'} e c) g (f, o, w) = (
    unmoved sh puts initial k g e c (λ q. ne (some-inj (sym q ∙ o))) ∙ f,
    o,
    λ j p l. elim (update-cases k j p' threads') [
      | inl (q, u) ↦ absurd (
          none-some
            (sym (Call-after_lock c) ∙ ap after_lock (sym e ∙ ap threads' (sym q) ∙ w j p l) ∙ l))
      | inr (q, u) ↦ u ∙ w j p l
    ],
  )
  Step-Kept log files threads i k ne (lock e) g (f, o, w) = absurd (none-some o)
  Step-Kept log files threads i k ne (unlock e) g (f, o, w) =
      absurd (ne (some-inj (sym (unlock-owner log k e g) ∙ o)))

  Reach-Kept :
      (log : List Put) (files : Files) (threads : ℕ → Thread) (i : ℕ) {s t : Shared}
      → AllGood sh puts initial log s
      → Kept i files threads s
      → Reach sh puts (Others i) s t
      → ((log' : List Put) × AllGood sh puts initial log' t) × Kept i files threads t
  Reach-Kept log files threads i g k here = ((log, g), k)
  Reach-Kept log files threads i g k (later r j ne st) =
      let ((log', g'), k') = Reach-Kept log files threads i g k r in
      let (log'', x, g'') = Step-Good sh puts initial j st g' in
      ((log'', g''), Step-Kept log' files threads i j ne st g' k')

  -- While a thread that has the lock makes no call, as when its client does not send the rest of a
  -- chunk or its "Ready", the others do what they will: no file changes, and a thread `j` that waits
  -- for the lock to put or to get still does.
  pub Others-Reach :
      (files files' : Files) (owner owner' : Option ℕ) (threads threads' : ℕ → Thread) (i j : ℕ)
      (p : Thread)
      → Reach sh puts Anyone (start initial) (shared files owner threads)
      → has_lock (threads i) ≡ true
      → after_lock (threads j) ≡ some p
      → Reach sh puts (Others i) (shared files owner threads) (shared files' owner' threads')
      → (files' ≡ files) × (owner' ≡ some i) × (threads' j ≡ threads j)
  Others-Reach files files' owner owner' threads threads' i j p past held waits r =
      let (log, g) = Reach-Good sh puts initial past in
      let (f, o, w) =
        (Reach-Kept log files threads i g (refl, g.owned i held, λ j p l. refl) r).1 in
      (f, o, w j p waits)
