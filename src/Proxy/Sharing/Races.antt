-- ===== src/Proxy/Sharing/Races.antt =====
-- What goes wrong between two processes of PA3/proxy.c at one cache file: the file is emptied in
-- front of the writer's lock, and its last bytes come behind the unlock.
use network_systems.Prelude.{
  ℕ, ◌≤◌, ◌<◌, ◌≡◌, refl, sym, Option, some, List, [], ◌∷◌, ◌++◌, arith, length, take, drop, join,
  take_all, append-nil, append_assoc, length-take,
}
use network_systems.CString.{Bytes}
use network_systems.Stream.{bufsize}
use network_systems.Proxy.Sharing.{
  opened, writing, unlocked, Reader, coming, sending, sent_all, Shared, shared, next_piece, open_wb,
  lock_write, fwrite, flush, unlock_write, check, open_rb, lock_read, measure, send_piece,
  unlock_read, Reach, here, then_step, start,
}

-- A process that comes between the writer's fopen and its lock sends an empty page, whatever the
-- old page and the new one are.
pub empty_page-Reach :
    (old : Option Bytes) (pieces : List Bytes)
    → Reach pieces (start old) (shared (some []) opened (sent_all 0 []))
empty_page-Reach old pieces =
    then_step
      (then_step
        (then_step (then_step (then_step (then_step here open_wb) check) open_rb) (lock_read refl))
        measure)
      (unlock_read (omega arith))

-- A reader in its loop over a file that was emptied.
abbrev Stuck : ℕ → Bytes → Shared → Type 0
Stuck fsize sent (shared file w r) = (file ≡ some []) × (w ≡ opened) × (r ≡ sending fsize sent)

fwrites :
    (pieces : List Bytes) (s : Shared) (file : Option Bytes) (rest : List Bytes) (pending : Bytes)
    (r : Reader)
    → Reach pieces s (shared file (writing rest pending) r)
    → Reach pieces s (shared file (writing [] (pending ++ join rest)) r)
fwrites pieces s file [] pending r past = rw append-nil past
fwrites pieces s file (piece ∷ rest) pending r past =
    rw (sym (append_assoc pending piece (join rest)))
      (fwrites pieces s file rest (pending ++ piece) r (then_step past fwrite))

-- The writer has unlocked the file, and the first n bytes of the page are in it.
written :
    (old : Option Bytes) (pieces : List Bytes) (n : ℕ)
    → Reach pieces
        (start old)
        (shared (some (take n (join pieces))) (unlocked (drop n (join pieces))) coming)
written old pieces n =
    then_step
      (then_step
        (fwrites pieces (start old) (some []) pieces [] coming
          (then_step (then_step here open_wb) (lock_write refl)))
        (flush n))
      unlock_write

-- A process that comes between the writer's unlock and its fclose sends the page cut short, and
-- announces the length of what it sends: any number of bytes up to the size of a buffer, if stdio
-- has written out no more.
pub cut_short-Reach :
    (old : Option Bytes) (pieces : List Bytes) (n : ℕ)
    → 0 < n
    → n ≤ bufsize
    → n < length (join pieces)
    → Reach pieces (start old) (
        shared
          (some (take n (join pieces)))
          (unlocked (drop n (join pieces)))
          (sent_all n (take n (join pieces))))
cut_short-Reach old pieces n some_bytes small short =
    let size : length (take n (join pieces)) ≡ n = omega (arith, length-take n (join pieces)) in
    let piece : next_piece (take n (join pieces)) [] ≡ take n (join pieces) =
      take_all bufsize (take n (join pieces)) (omega arith) in
    let read =
      then_step
        (then_step (then_step (then_step (written old pieces n) check) open_rb) (lock_read refl))
        measure in
    let sent = then_step (rw size at read) (send_piece some_bytes) in
    then_step (rw piece at sent) (unlock_read (omega arith))
