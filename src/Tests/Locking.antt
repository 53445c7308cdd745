-- ===== src/Tests/Locking.antt =====
-- Two threads of PA4/server/dfs.c at one directory: thread 0 puts a chunk in two pieces, thread 1
-- gets it, and asks the shell for it while it is being written.
use network_systems.Dfs.Locking.Gone.{looping-Reach}
use network_systems.Prelude.{true, ℕ, arith, ◌≡◌, refl, Option, some, List, [], ◌∷◌}
use network_systems.CString.{Bytes, codes}
use network_systems.Dfs.Files.{Files, newest}
use network_systems.Dfs.Locking.{
  looping, is_looping, recv_none, recv_again, Put, first, Thread, Shared, Call, update, put_waiting,
  get_locked, asked, get_waiting, request_put, fopen_wb, fwrite, fclose_put, request_get,
  popen_some, measure, fread, shared, call, lock, unlock, Reach, here, later, Anyone, start,
}
use network_systems.Dfs.Locking.Serial.{Extends}
use network_systems.Dfs.Locking.Atomic.{Explained, Explained-Reach, has_lock-Reach}
use network_systems.Dfs.Locking.Stalled.{Others-Reach}
use network_systems.Dfs.Locking.Progress.{Freed, Freed-Reach}
use network_systems.Tests.Common.{shell}

abbrev entry : Bytes
entry = codes "f-1-5"

abbrev two_pieces : List Put
two_pieces = (entry, codes "he" ∷ codes "llo" ∷ []) ∷ []

-- A state with a way to it.
record Past (s : Shared) : Type 0 where
  files : Files
  owner : Option ℕ
  threads : ℕ → Thread
  reach : Reach shell two_pieces Anyone s (shared files owner threads)

-- The shell gives the name while the file is empty.
finds :
    Call shell two_pieces
      ((entry, []) ∷ [])
      (asked (codes "f") (codes "1"))
      ((entry, []) ∷ [])
      (get_waiting entry)
unfolding newest
finds = popen_some {filename = codes "f"} {chunk = codes "1"} refl

-- Thread 0 has the lock and has written one piece; thread 1 has the name, and waits for the lock.
abbrev half_written : Past (start [])
half_written = record {
  files = _;
  owner = _;
  threads = _;
  reach =
      later
        (later
          (later
            (later (later here 0 tt (call refl (request_put {name = entry} first))) 0 tt
              (lock refl))
            0 tt (call refl fopen_wb))
          1 tt (call refl (request_get (codes "f") (codes "1"))))
        1 tt (call refl finds);
}

-- Thread 0 has written the other piece and given the lock back, and thread 1 sends the chunk.
abbrev after_answer : Past (shared half_written.files half_written.owner half_written.threads)
after_answer = record {
  files = _;
  owner = _;
  threads = _;
  reach =
      later
        (later
          (later
            (later
              (later
                (later (later here 0 tt (call refl fwrite)) 0 tt
                  (call refl (fclose_put {content = []} refl)))
                0 tt (unlock refl))
              1 tt (lock refl))
            1 tt (call refl (measure {content = codes "hello"} refl)))
          1 tt (call refl (fread {content = codes "hello"} refl)))
        1 tt (unlock refl);
}

Explained-Reach_example :
    (log : List Put) × (log' : List Put) × Explained shell two_pieces [] log
      (shared half_written.files half_written.owner half_written.threads)
    × Explained shell two_pieces [] log'
        (shared after_answer.files after_answer.owner after_answer.threads)
    × Extends log log'
Explained-Reach_example =
    Explained-Reach shell two_pieces []
      (shared half_written.files half_written.owner half_written.threads)
      (shared after_answer.files after_answer.owner after_answer.threads) half_written.reach
      after_answer.reach

has_lock-Reach_example : ◌≡◌ {A = ℕ} 0 0
has_lock-Reach_example =
    has_lock-Reach shell two_pieces [] half_written.files half_written.owner half_written.threads 0
      0 half_written.reach refl refl

-- A third thread has come to put, and waits too.
abbrev third_waits : ℕ → Thread
third_waits = update 2 (put_waiting entry (codes "he") (codes "llo" ∷ [])) half_written.threads

Others-Reach_example :
    (half_written.files ≡ half_written.files)
    × (half_written.owner ≡ some 0)
    × (third_waits 1 ≡ half_written.threads 1)
Others-Reach_example =
    Others-Reach shell two_pieces [] half_written.files half_written.files half_written.owner
      half_written.owner half_written.threads third_waits 0 1 (get_locked entry) half_written.reach
      refl refl (later here 2 (omega arith) (call refl (request_put first)))

Freed-Reach_example :
    Freed shell two_pieces [] 0 (shared half_written.files half_written.owner half_written.threads)
Freed-Reach_example =
    Freed-Reach shell two_pieces [] half_written.files half_written.owner half_written.threads 0
      half_written.reach refl refl

-- The client of thread 0 goes.
abbrev gone : Past (start [])
gone = record {
  files = _;
  owner = _;
  threads = _;
  reach = later half_written.reach 0 tt (call refl recv_none);
}

looping-Reach_example :
    (is_looping (gone.threads 0) ≡ true) × (gone.owner ≡ some 0) × (gone.threads 1 ≡ gone.threads 1)
looping-Reach_example =
    looping-Reach shell two_pieces [] gone.files gone.files gone.owner gone.owner gone.threads
      (update 0 (looping entry (codes "he")) gone.threads) 0 1 (get_locked entry) gone.reach refl
      refl (later here 0 tt (call refl recv_again))
