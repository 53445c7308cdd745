-- ===== src/Dfs/Locking.antt =====
-- The threads of PA4/server/dfs.c over one directory, in any order of their calls: the branches of
-- `service_request` for "put" and "get" with the mutex `file_lock` around the files.
pub mod Serial
pub mod Entries
pub mod Good
pub mod Steps
pub mod Atomic
pub mod Stalled
pub mod Progress
pub mod Alone
pub mod Gone
use network_systems.Prelude.{
  ℕ, ◌==◌, ◌≡◌, ◌≢◌, Bool, true, false, Option, none, some, List, [], ◌∷◌, ◌++◌, length, take, drop,
  join, if◌then◌else◌,
}
use network_systems.CString.{Bytes, contains}
use network_systems.Dfs.Files.{Files, Shell, names, lookup, store, newest}
use network_systems.Dfs.Service.{file_chunk}

-- A put: the name of its entry, and its chunk in the pieces that are written, the first of which
-- came with the header.
abbrev pub Put : Type 0
Put = Bytes × List Bytes

-- A put is among those that clients send.
pub data Asked (name : Bytes) (pieces : List Bytes) : List Put → Type 0 where
  first : {puts : List Put} → Asked name pieces ((name, pieces) ∷ puts)
  next : {puts : List Put} {put : Put} → Asked name pieces puts → Asked name pieces (put ∷ puts)

-- Where a thread is. A put: in front of the lock; in front of fopen; in front of its next fwrite,
-- with what stdio holds back; in its reading loop, when the client has gone; behind
-- fclose. A get: in front of popen; in front of the lock, with
-- the name that the shell gave; in front of fopen; behind the send of fsize, where it waits for
-- "Ready"; behind fclose; behind the unlock, with the bytes it sends.
pub data Thread : Type 0 where
  idle : Thread
  put_waiting put_locked : Bytes → Bytes → List Bytes → Thread
  writing : Bytes → List Bytes → Bytes → Thread
  looping : Bytes → Bytes → Thread
  put_closed : Thread
  asked : Bytes → Bytes → Thread
  get_waiting get_locked : Bytes → Thread
  sized : Bytes → ℕ → Thread
  fetched sending : Bytes → ℕ → Bytes → Thread

-- The thread is between its lock and its unlock.
abbrev pub has_lock : Thread → Bool
has_lock (put_locked name payload rest) = true
has_lock (writing name rest pending) = true
has_lock (looping name pending) = true
has_lock put_closed = true
has_lock (get_locked name) = true
has_lock (sized name fsize) = true
has_lock (fetched name fsize chunk) = true
has_lock idle = false
has_lock (put_waiting name payload rest) = false
has_lock (asked filename chunk) = false
has_lock (get_waiting name) = false
has_lock (sending name fsize chunk) = false

-- pthread_mutex_lock, for a thread whose next call it is.
abbrev pub after_lock : Thread → Option Thread
after_lock (put_waiting name payload rest) = some (put_locked name payload rest)
after_lock (get_waiting name) = some (get_locked name)
after_lock idle = none
after_lock (put_locked name payload rest) = none
after_lock (writing name rest pending) = none
after_lock (looping name pending) = none
after_lock put_closed = none
after_lock (asked filename chunk) = none
after_lock (get_locked name) = none
after_lock (sized name fsize) = none
after_lock (fetched name fsize chunk) = none
after_lock (sending name fsize chunk) = none

-- pthread_mutex_unlock, likewise; "PUT successful" is sent behind it.
abbrev pub after_unlock : Thread → Option Thread
after_unlock put_closed = some idle
after_unlock (fetched name fsize chunk) = some (sending name fsize chunk)
after_unlock idle = none
after_unlock (put_waiting name payload rest) = none
after_unlock (put_locked name payload rest) = none
after_unlock (writing name rest pending) = none
after_unlock (looping name pending) = none
after_unlock (asked filename chunk) = none
after_unlock (get_waiting name) = none
after_unlock (get_locked name) = none
after_unlock (sized name fsize) = none
after_unlock (sending name fsize chunk) = none

-- The thread is in the reading loop of a put whose client has gone.
abbrev pub is_looping : Thread → Bool
is_looping (looping name pending) = true
is_looping idle = false
is_looping (put_waiting name payload rest) = false
is_looping (put_locked name payload rest) = false
is_looping (writing name rest pending) = false
is_looping put_closed = false
is_looping (asked filename chunk) = false
is_looping (get_waiting name) = false
is_looping (get_locked name) = false
is_looping (sized name fsize) = false
is_looping (fetched name fsize chunk) = false
is_looping (sending name fsize chunk) = false

-- The entry that the shell gives for a chunk.
abbrev pub newest_entry : Shell → Bytes → Bytes → Files → Bytes
newest_entry sh filename chunk files = newest sh (file_chunk filename chunk) (names files)

-- One other call of a thread, over the files. stdio may write out what it holds back at any time,
-- and does so at fclose. Clients send the puts of a list, and any gets. The client of a put may go
-- before its chunk has come: `recv` then gives 0 bytes, time and again. A `recv` that fails, after
-- which fwrite is called with the count -1, is left out. fopen and the write of what came with the
-- header are one call, since stdio holds that back.
pub data Call (sh : Shell) (puts : List Put) : Files → Thread → Files → Thread → Type 0 where
  request_put :
      {files : Files} {name payload : Bytes} {rest : List Bytes}
      → Asked name (payload ∷ rest) puts
      → Call sh puts files idle files (put_waiting name payload rest)
  fopen_wb :
      {files : Files} {name payload : Bytes} {rest : List Bytes}
      → Call sh puts files
          (put_locked name payload rest)
          (store name [] files)
          (writing name rest payload)
  fwrite :
      {files : Files} {name piece pending : Bytes} {rest : List Bytes}
      → Call sh puts files
          (writing name (piece ∷ rest) pending)
          files
          (writing name rest (pending ++ piece))
  flush :
      {files : Files} {name content pending : Bytes} {rest : List Bytes} (n : ℕ)
      → lookup name files ≡ some content
      → Call sh puts files
          (writing name rest pending)
          (store name (content ++ take n pending) files)
          (writing name rest (drop n pending))
  recv_none :
      {files : Files} {name piece pending : Bytes} {rest : List Bytes}
      → Call sh puts files (writing name (piece ∷ rest) pending) files (looping name pending)
  recv_again :
      {files : Files} {name pending : Bytes}
      → Call sh puts files (looping name pending) files (looping name pending)
  flush_looping :
      {files : Files} {name content pending : Bytes} (n : ℕ)
      → lookup name files ≡ some content
      → Call sh puts files
          (looping name pending)
          (store name (content ++ take n pending) files)
          (looping name (drop n pending))
  fclose_put :
      {files : Files} {name content pending : Bytes}
      → lookup name files ≡ some content
      → Call sh puts files
          (writing name [] pending)
          (store name (content ++ pending) files)
          put_closed
  request_get :
      {files : Files} (filename chunk : Bytes)
      → Call sh puts files idle files (asked filename chunk)
  popen_none :
      {files : Files} {filename chunk : Bytes}
      → contains (newest_entry sh filename chunk files) (file_chunk filename chunk) ≡ false
      → Call sh puts files (asked filename chunk) files idle
  popen_some :
      {files : Files} {filename chunk : Bytes}
      → contains (newest_entry sh filename chunk files) (file_chunk filename chunk) ≡ true
      → Call sh puts files
          (asked filename chunk)
          files
          (get_waiting (newest_entry sh filename chunk files))
  measure :
      {files : Files} {name content : Bytes}
      → lookup name files ≡ some content
      → Call sh puts files (get_locked name) files (sized name (length content))
  fread :
      {files : Files} {name content : Bytes} {fsize : ℕ}
      → lookup name files ≡ some content
      → Call sh puts files (sized name fsize) files (fetched name fsize (take fsize content))
  send_bytes :
      {files : Files} {name chunk : Bytes} {fsize : ℕ}
      → Call sh puts files (sending name fsize chunk) files idle

-- The directory, the thread that owns `file_lock`, and the threads by their numbers.
pub data Shared : Type 0 where
  shared : Files → Option ℕ → (ℕ → Thread) → Shared

abbrev pub update : ℕ → Thread → (ℕ → Thread) → ℕ → Thread
update i p threads j = if j == i then p else threads j

-- One call of thread `i`.
pub data Step (sh : Shell) (puts : List Put) (i : ℕ) : Shared → Shared → Type 0 where
  call :
      {files files' : Files} {owner : Option ℕ} {threads : ℕ → Thread} {p p' : Thread}
      → threads i ≡ p
      → Call sh puts files p files' p'
      → Step sh puts i (shared files owner threads) (shared files' owner (update i p' threads))
  lock :
      {files : Files} {threads : ℕ → Thread} {p : Thread}
      → after_lock (threads i) ≡ some p
      → Step sh puts i (shared files none threads) (shared files (some i) (update i p threads))
  unlock :
      {files : Files} {owner : Option ℕ} {threads : ℕ → Thread} {p : Thread}
      → after_unlock (threads i) ≡ some p
      → Step sh puts i (shared files owner threads) (shared files none (update i p threads))

-- Some calls, one after the other, of threads that `Moves` allows.
pub data Reach (sh : Shell) (puts : List Put) (Moves : ℕ → Type 0) (s : Shared)
    : Shared → Type 0 where
  here : Reach sh puts Moves s s
  later :
      {t u : Shared}
      → Reach sh puts Moves s t
      → (i : ℕ) → Moves i
      → Step sh puts i t u
      → Reach sh puts Moves s u

abbrev pub Anyone : ℕ → Type 0
Anyone i = Unit

abbrev pub Others : ℕ → ℕ → Type 0
Others i j = j ≢ i

-- No thread has a request yet.
abbrev pub start : Files → Shared
start files = shared files none (λ i. idle)
