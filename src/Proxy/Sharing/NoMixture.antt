-- ===== src/Proxy/Sharing/NoMixture.antt =====
-- What two processes of PA3/proxy.c at one cache file send to their clients.
use network_systems.Prelude.{
  ℕ, ◌≤◌, ◌≡◌, refl, ap, false, ◌&&◌, Option, some, List, arith, length, join, ◌⊎◌,
}
use network_systems.CString.{Bytes}
use network_systems.Proxy.Sharing.{
  Writer, Reader, coming, checked, ready, locked, sending, sent_all, Shared, shared, closed,
  writer_locks, reader_locks, Step, open_wb, lock_write, fwrite, flush, unlock_write, close_write,
  check, open_rb, lock_read, measure, send_piece, unlock_read, Reach, here, then_step, start,
}
use network_systems.Proxy.Sharing.Good.{
  IsPrefix, Good, Read, Step-Good, some-inj, IsPrefix-next_piece, IsPrefix-eq,
}

Reach-Good :
    (old : Option Bytes) (pieces : List Bytes) {s : Shared}
    → Reach pieces (start old) s
    → Good old (join pieces) s
Reach-Good old pieces here = (refl, tt)
Reach-Good old pieces (then_step r st) =
    Step-Good old (join pieces) pieces refl st (Reach-Good old pieces r)

-- In any order of their calls, what the reader has sent at its end is the whole old page, with its
-- length announced, or a part of the new page from its first byte on, with no more bytes announced
-- than sent: never bytes of both.
pub sent_all-Reach :
    (old : Option Bytes) (pieces : List Bytes) (file : Option Bytes) (w : Writer) (fsize : ℕ)
    (sent : Bytes)
    → Reach pieces (start old) (shared file w (sent_all fsize sent))
    → ((old ≡ some sent) × (fsize ≡ length sent))
      ⊎ (IsPrefix sent (join pieces) × (fsize ≤ length sent))
sent_all-Reach old pieces file w fsize sent r = (Reach-Good old pieces r).1

-- The two locks are never held together.
pub locks-Reach :
    (old : Option Bytes) (pieces : List Bytes) (file : Option Bytes) (w : Writer) (r : Reader)
    → Reach pieces (start old) (shared file w r)
    → (writer_locks w && reader_locks r) ≡ false
locks-Reach old pieces file w r past = apart r (Reach-Good old pieces past).1
  where
    apart :
        (r : Reader) → Read old (join pieces) file w r → (writer_locks w && reader_locks r) ≡ false
    apart coming g = ground arith
    apart checked g = ground arith
    apart ready g = ground arith
    apart locked g = rw g refl
    apart (sending fsize sent) g = rw g.0 refl
    apart (sent_all fsize sent) g = ground arith

-- What the reader does once the page is there.
abbrev Progress : Bytes → Reader → Type 0
Progress page coming = Unit
Progress page checked = Unit
Progress page ready = Unit
Progress page locked = Unit
Progress page (sending fsize sent) = (fsize ≡ length page) × IsPrefix sent page
Progress page (sent_all fsize sent) = (sent ≡ page) × (fsize ≡ length page)

abbrev Settled : Bytes → Shared → Type 0
Settled page (shared file w r) = (file ≡ some page) × (w ≡ closed) × Progress page r

Step-Settled :
    {pieces : List Bytes} {s t : Shared} (page : Bytes)
    → Step pieces s t
    → Settled page s
    → Settled page t
Step-Settled page open_wb (f, w, r) = cc w
Step-Settled page (lock_write free) (f, w, r) = cc w
Step-Settled page fwrite (f, w, r) = cc w
Step-Settled page (flush n) (f, w, r) = cc w
Step-Settled page unlock_write (f, w, r) = cc w
Step-Settled page close_write (f, w, r) = cc w
Step-Settled page check (f, w, r) = (f, w, tt)
Step-Settled page open_rb (f, w, r) = (f, w, tt)
Step-Settled page (lock_read free) (f, w, r) = (f, w, tt)
Step-Settled page measure (f, w, r) = (f, w, (ap length (some-inj f), (page, refl)))
Step-Settled page (send_piece {content} {sent} more) (f, w, (size, p)) =
    let same : content ≡ page = some-inj f in
    (f, w, (size, rw same (IsPrefix-next_piece sent page p)))
Step-Settled page (unlock_read {sent} long) (f, w, (size, p)) =
    (f, w, (IsPrefix-eq sent page p (omega arith), size))

Reach-Settled :
    {pieces : List Bytes} {s t : Shared} (page : Bytes)
    → Settled page s
    → Reach pieces s t
    → Settled page t
Reach-Settled page settled here = settled
Reach-Settled page settled (then_step r st) = Step-Settled page st (Reach-Settled page settled r)

-- A reader that takes its lock when the writer has closed the file sends the whole new page, and
-- announces its length.
pub sent_all-closed :
    (old : Option Bytes) (pieces : List Bytes) (file file' : Option Bytes) (w : Writer) (fsize : ℕ)
    (sent : Bytes)
    → Reach pieces (start old) (shared file closed ready)
    → Reach pieces (shared file closed ready) (shared file' w (sent_all fsize sent))
    → (sent ≡ join pieces) × (fsize ≡ length sent)
sent_all-closed old pieces file file' w fsize sent past next =
    let there : file ≡ some (join pieces) = (Reach-Good old pieces past).0 in
    let (f, c, (whole, size)) = Reach-Settled (join pieces) (there, refl, tt) next in
    (whole, rw whole size)
