-- ===== src/Proxy/Sharing.antt =====
-- Two processes of PA3/proxy.c at one cache file: one writes it at the end of `relay`, one sends it
-- in `send_from_cache`, in any order of their calls. The writer opens the file, which empties it,
-- in front of its lock, and closes it behind its unlock.
pub mod Good
pub mod NoMixture
pub mod Races
use network_systems.Prelude.{
  ℕ, ◌≤◌, ◌<◌, ◌≡◌, Bool, true, false, Option, none, some, List, [], ◌∷◌, ◌++◌, length, take, drop,
}
use network_systems.CString.{Bytes}
use network_systems.Stream.{bufsize}

-- The writer: in front of fopen; in front of its lock; under the lock, with the pieces that it has
-- yet to fwrite, and the bytes that stdio holds back; behind the unlock; behind fclose.
pub data Writer : Type 0 where
  waiting opened closed : Writer
  writing : List Bytes → Bytes → Writer
  unlocked : Bytes → Writer

-- The reader: in front of `check_cache`; behind it; behind fopen; under its lock; in the loop that
-- sends, with fsize and what was sent; behind the loop.
pub data Reader : Type 0 where
  coming checked ready locked : Reader
  sending sent_all : ℕ → Bytes → Reader

-- The cache file, if it is there, and the two processes.
pub data Shared : Type 0 where
  shared : Option Bytes → Writer → Reader → Shared

abbrev pub writer_locks : Writer → Bool
writer_locks (writing rest pending) = true
writer_locks waiting = false
writer_locks opened = false
writer_locks closed = false
writer_locks (unlocked pending) = false

abbrev pub reader_locks : Reader → Bool
reader_locks locked = true
reader_locks (sending fsize sent) = true
reader_locks coming = false
reader_locks checked = false
reader_locks ready = false
reader_locks (sent_all fsize sent) = false

-- What fread gives behind the bytes that were sent.
abbrev pub next_piece : Bytes → Bytes → Bytes
next_piece content sent = take bufsize (drop (length sent) content)

-- One call of one process; `pieces` are what `recv` gives the writer. stdio may write out what it
-- holds back at any time, and does so at fclose. Whether the file that `check_cache` finds is new
-- enough is left open.
pub data Step (pieces : List Bytes) : Shared → Shared → Type 0 where
  open_wb :
      {file : Option Bytes} {r : Reader}
      → Step pieces (shared file waiting r) (shared (some []) opened r)
  lock_write :
      {file : Option Bytes} {r : Reader}
      → reader_locks r ≡ false
      → Step pieces (shared file opened r) (shared file (writing pieces []) r)
  fwrite :
      {file : Option Bytes} {r : Reader} {piece pending : Bytes} {rest : List Bytes}
      → Step pieces
          (shared file (writing (piece ∷ rest) pending) r)
          (shared file (writing rest (pending ++ piece)) r)
  flush :
      {content pending : Bytes} {rest : List Bytes} {r : Reader} (n : ℕ)
      → Step pieces
          (shared (some content) (writing rest pending) r)
          (shared (some (content ++ take n pending)) (writing rest (drop n pending)) r)
  unlock_write :
      {file : Option Bytes} {r : Reader} {pending : Bytes}
      → Step pieces (shared file (writing [] pending) r) (shared file (unlocked pending) r)
  close_write :
      {content pending : Bytes} {r : Reader}
      → Step pieces
          (shared (some content) (unlocked pending) r)
          (shared (some (content ++ pending)) closed r)
  check :
      {content : Bytes} {w : Writer}
      → Step pieces (shared (some content) w coming) (shared (some content) w checked)
  open_rb :
      {content : Bytes} {w : Writer}
      → Step pieces (shared (some content) w checked) (shared (some content) w ready)
  lock_read :
      {file : Option Bytes} {w : Writer}
      → writer_locks w ≡ false
      → Step pieces (shared file w ready) (shared file w locked)
  measure :
      {content : Bytes} {w : Writer}
      → Step pieces
          (shared (some content) w locked)
          (shared (some content) w (sending (length content) []))
  send_piece :
      {content sent : Bytes} {w : Writer} {fsize : ℕ}
      → length sent < fsize
      → Step pieces
          (shared (some content) w (sending fsize sent))
          (shared (some content) w (sending fsize (sent ++ next_piece content sent)))
  unlock_read :
      {file : Option Bytes} {sent : Bytes} {w : Writer} {fsize : ℕ}
      → fsize ≤ length sent
      → Step pieces (shared file w (sending fsize sent)) (shared file w (sent_all fsize sent))

-- Some calls, one after the other.
pub data Reach (pieces : List Bytes) (s : Shared) : Shared → Type 0 where
  here : Reach pieces s s
  then_step : {t u : Shared} → Reach pieces s t → Step pieces t u → Reach pieces s u

-- Both processes come to a cache file that is old, or not there.
abbrev pub start : Option Bytes → Shared
start old = shared old waiting coming
