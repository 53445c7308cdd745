-- ===== src/Dfs/Locking/Progress.antt =====
-- The way of a thread of PA4/server/dfs.c from its lock to its unlock.
use network_systems.Prelude.{false, ℕ, ◌≡◌, refl, ap, ◌∙◌, true, Option, none, List, [], length}
use network_systems.Dfs.Files.{Files, Shell, lookup}
use network_systems.Dfs.Files.Laws.{lookup-store_self}
use network_systems.Dfs.Locking.{
  looping, is_looping, Put, Thread, idle, put_waiting, put_locked, writing, put_closed, asked,
  get_waiting, get_locked, sized, fetched, sending, has_lock, fopen_wb, measure, Shared, shared,
  Reach, here, Anyone, start,
}
use network_systems.Dfs.Locking.Good.{Fine}
use network_systems.Dfs.Locking.Steps.{Reach-Good}
use network_systems.Dfs.Locking.Alone.{Comes, then_call, then_unlock, writing_rest, sized_rest}

module _ (sh : Shell) (puts : List Put) (initial : Files) where
  -- Calls of thread `i`, and of no other, end with the lock free.
  abbrev pub Freed : ℕ → Shared → Type 0
  Freed i s = (files : Files) × (p : Thread) × Comes sh puts i s files none p

  Freed-Fine :
      (log : List Put) {s : Shared} {files : Files} {owner : Option ℕ} (i : ℕ) (p : Thread)
      → Comes sh puts i s files owner p
      → has_lock p ≡ true
      → is_looping p ≡ false
      → Fine sh puts initial log files p
      → Freed i s
  Freed-Fine log {files = files} i (put_locked name payload rest) now h l f = (
    _,
    idle,
    writing_rest sh puts i name [] rest payload (then_call sh puts i now fopen_wb)
        (lookup-store_self name [] files),
  )
  Freed-Fine log i (writing name rest pending) now h l (before, pieces, content, s, m, k, all) = (
    _,
    idle,
    writing_rest sh puts i name content rest pending now
        (ap (lookup name) k ∙ lookup-store_self name content before),
  )
  Freed-Fine log {files = files} i put_closed now h l f =
      (files, idle, then_unlock sh puts i now refl)
  Freed-Fine log {files = files} i (get_locked name) now h l (s, (c, look)) = (
    files,
    _,
    sized_rest sh puts i name c (length c) (then_call sh puts i now (measure look)) look,
  )
  Freed-Fine log {files = files} i (sized name fsize) now h l (s, (c, look, k)) =
      (files, _, sized_rest sh puts i name c fsize now look)
  Freed-Fine log {files = files} i (fetched name fsize chunk) now h l f =
      (files, sending name fsize chunk, then_unlock sh puts i now refl)
  Freed-Fine log i (looping name pending) now h l f = cc l
  Freed-Fine log i idle now h l f = cc h
  Freed-Fine log i (put_waiting name payload rest) now h l f = cc h
  Freed-Fine log i (asked filename chunk) now h l f = cc h
  Freed-Fine log i (get_waiting name) now h l f = cc h
  Freed-Fine log i (sending name fsize chunk) now h l f = cc h

  -- From each state that the threads can reach, some calls of the thread that has the lock, and of no
  -- other, lead to one in which the lock is free, unless the thread is in the reading loop of a put
  -- whose client has gone.
  pub Freed-Reach :
      (files : Files) (owner : Option ℕ) (threads : ℕ → Thread) (i : ℕ)
      → Reach sh puts Anyone (start initial) (shared files owner threads)
      → has_lock (threads i) ≡ true
      → is_looping (threads i) ≡ false
      → Freed i (shared files owner threads)
  Freed-Reach files owner threads i past held there =
      let (log, g) = Reach-Good sh puts initial past in
      Freed-Fine log i (threads i) (threads, here, refl) held there (g.fine i)
