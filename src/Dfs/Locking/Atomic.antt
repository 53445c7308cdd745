-- ===== src/Dfs/Locking/Atomic.antt =====
-- The lock, the directory and the answers of the threads of PA4/server/dfs.c, in each state that
-- their calls lead to.
use network_systems.Prelude.{ℕ, ◌≡◌, refl, sym, ◌∙◌, true, Option, none, some, List, length}
use network_systems.Dfs.Files.{Files, Shell, lookup}
use network_systems.Dfs.Locking.{
  Put, Thread, sending, has_lock, Shared, shared, Reach, Anyone, start,
}
use network_systems.Dfs.Locking.Serial.{Serial, Extends}
use network_systems.Dfs.Locking.Good.{some-inj, Fine}
use network_systems.Dfs.Locking.Steps.{Good, AllGood, Reach-Later, Reach-Good}

module _ (sh : Shell) (puts : List Put) (initial : Files) where
  -- What a thread sends for a get is what the directory had, by its name, when the log was an
  -- earlier one; and the size announced is its length.
  abbrev pub Answered : List Put → Thread → Type 0
  Answered log (sending name fsize chunk) =
      (earlier : List Put) × (then : Files) × Extends earlier log
      × Serial puts initial earlier then
      × (lookup name then ≡ some chunk)
      × (fsize ≡ length chunk)
  Answered log p = Unit

  abbrev pub Quiet : List Put → Files → Option ℕ → Type 0
  Quiet log files none = Serial puts initial log files
  Quiet log files (some i) = Unit

  -- The log of whole puts explains the directory, when the lock is free, and what threads send.
  abbrev pub Explained : List Put → Shared → Type 0
  Explained log (shared files owner threads) =
      Quiet log files owner × ((j : ℕ) → Answered log (threads j))

  Fine-Answered :
      (log : List Put) (files : Files) (p : Thread)
      → Fine sh puts initial log files p
      → Answered log p
  Fine-Answered log files (sending name fsize chunk) f = f
  Fine-Answered log files p f = tt

  Good-Quiet :
      {log : List Put} {files : Files} (owner : Option ℕ) {threads : ℕ → Thread}
      → Good sh puts initial log files owner threads
      → Quiet log files owner
  Good-Quiet none g = g.quiet refl
  Good-Quiet (some i) g = tt

  Good-Explained : (log : List Put) (s : Shared) → AllGood sh puts initial log s → Explained log s
  Good-Explained log (shared files owner threads) g =
      (Good-Quiet owner g, λ j. Fine-Answered log files (threads j) (g.fine j))

  -- In any order of the calls of any number of threads there is a log of whole puts that explains
  -- each state: the directory, when the lock is free, is what the puts of the log have left, and each
  -- chunk that a thread sends, with its length announced, is the whole content of its entry at some
  -- earlier place of the log. A later state has a log that goes on from the one before.
  pub Explained-Reach :
      (s t : Shared)
      → Reach sh puts Anyone (start initial) s
      → Reach sh puts Anyone s t
      → (log : List Put) × (log' : List Put) × Explained log s × Explained log' t × Extends log log'
  Explained-Reach s t r r' =
      let (log, g) = Reach-Good sh puts initial r in
      let (log', x, g') = Reach-Later sh puts initial g r' in
      (log, log', Good-Explained log s g, Good-Explained log' t g', x)

  -- At most one thread is between its lock and its unlock.
  pub has_lock-Reach :
      (files : Files) (owner : Option ℕ) (threads : ℕ → Thread) (i j : ℕ)
      → Reach sh puts Anyone (start initial) (shared files owner threads)
      → has_lock (threads i) ≡ true
      → has_lock (threads j) ≡ true
      → i ≡ j
  has_lock-Reach files owner threads i j r h k =
      let (log, g) = Reach-Good sh puts initial r in some-inj (sym (g.owned i h) ∙ g.owned j k)
