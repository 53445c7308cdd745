-- ===== src/Tests/Sharing.antt =====
-- Two processes of the proxy of PA3/proxy.c at one cache file: the old page is "old", the new one
-- comes in two pieces.
use network_systems.Prelude.{ℕ, ◌≤◌, ◌≡◌, refl, some, List, [], ◌∷◌, arith, length, join, ◌⊎◌}
use network_systems.CString.{Bytes, codes}
use network_systems.Proxy.Sharing.{
  shared, opened, closed, unlocked, ready, sent_all, open_wb, lock_write, fwrite, unlock_write,
  close_write, check, open_rb, lock_read, measure, send_piece, unlock_read, Reach, here, then_step,
  start,
}
use network_systems.Proxy.Sharing.Good.{IsPrefix}
use network_systems.Proxy.Sharing.NoMixture.{sent_all-Reach, sent_all-closed}
use network_systems.Proxy.Sharing.Races.{empty_page-Reach, cut_short-Reach}

abbrev old_page : Bytes
old_page = codes "old"

abbrev new_pieces : List Bytes
new_pieces = codes "new " ∷ codes "page" ∷ []

empty_page-Reach_example :
    Reach new_pieces (start (some old_page)) (shared (some []) opened (sent_all 0 []))
empty_page-Reach_example = empty_page-Reach (some old_page) new_pieces

sent_all-Reach_example :
    ((some old_page ≡ some (codes "new p")) × (◌≡◌ {A = ℕ} 5 (length (codes "new p"))))
    ⊎ (IsPrefix (codes "new p") (join new_pieces) × (5 ≤ length (codes "new p")))
sent_all-Reach_example =
    sent_all-Reach (some old_page) new_pieces (some (codes "new p")) (unlocked (codes "age")) 5
      (codes "new p")
      (cut_short-Reach (some old_page) new_pieces 5 (omega arith) (omega arith) (omega arith))

-- The writer has closed the file, and the reader comes.
written_whole :
    Reach new_pieces (start (some old_page)) (shared (some (codes "new page")) closed ready)
written_whole =
    then_step
      (then_step
        (then_step
          (then_step
            (then_step (then_step (then_step (then_step here open_wb) (lock_write refl)) fwrite)
              fwrite)
            unlock_write)
          close_write)
        check)
      open_rb

read_whole :
    Reach new_pieces
      (shared (some (codes "new page")) closed ready)
      (shared (some (codes "new page")) closed (sent_all 8 (codes "new page")))
read_whole =
    then_step
      (then_step (then_step (then_step here (lock_read refl)) measure) (send_piece (omega arith)))
      (unlock_read (omega arith))

sent_all-closed_example :
    (codes "new page" ≡ join new_pieces) × (◌≡◌ {A = ℕ} 8 (length (codes "new page")))
sent_all-closed_example =
    sent_all-closed (some old_page) new_pieces (some (codes "new page")) (some (codes "new page"))
      closed 8 (codes "new page") written_whole read_whole
