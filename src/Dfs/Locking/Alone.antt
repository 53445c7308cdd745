-- ===== src/Dfs/Locking/Alone.antt =====
-- One thread of PA4/server/dfs.c that makes its calls with no other between them, against the
-- branches of `service_request` as functions.
use network_systems.Prelude.{
  ℕ, ◌≡◌, refl, sym, ap, ◌∙◌, true, false, Option, none, some, List, [], ◌∷◌, ◌++◌, length, join,
  append-nil, append_assoc, take_all, ==_refl, ltb, lt→ltb, ◌<◌, ◌≤◌, ◌-◌, arith, drop, take,
}
use network_systems.CString.{Bytes, contains, ℤ, pos_part}
use network_systems.Dfs.Files.{Files, Shell, lookup, store}
use network_systems.Dfs.Files.Laws.{lookup-store_self}
use network_systems.Dfs.Service.{
  file_chunk, Server, get, put, send_file, find_command, entry_name, path_of, receive_rest, send,
  put_ack,
}
use network_systems.Dfs.Locking.Entries.{newest_entry-Has}
use network_systems.Stream.{Segments, bufsize}
use network_systems.Dfs.Request.{ok, Memory}
use network_systems.Dfs.Locking.{
  Put, Asked, Thread, idle, writing, sized, sending, newest_entry, Call, request_put, fopen_wb,
  fwrite, fclose_put, request_get, popen_some, measure, fread, Shared, shared, update, call, lock,
  unlock, Reach, here, later, after_lock, after_unlock,
}
use network_systems.Dfs.Locking.Serial.{store-store}

module _ (sh : Shell) (puts : List Put) (i : ℕ) where
  -- Calls of thread `i`, and of no other, bring it to `p`.
  abbrev pub Comes : Shared → Files → Option ℕ → Thread → Type 0
  Comes s files owner p =
      (threads : ℕ → Thread) × Reach sh puts (λ j. j ≡ i) s (shared files owner threads)
      × (threads i ≡ p)

  update_self : (p : Thread) (threads : ℕ → Thread) → update i p threads i ≡ p
  update_self p threads = rw (==_refl i) refl

  module _ {s : Shared} where
    pub then_call :
        {files files' : Files} {owner : Option ℕ} {p p' : Thread}
        → Comes s files owner p
        → Call sh puts files p files' p'
        → Comes s files' owner p'
    then_call {p'} (threads, r, e) c =
        (update i p' threads, later r i refl (call e c), update_self p' threads)

    then_lock :
        {files : Files} {p p' : Thread}
        → Comes s files none p
        → after_lock p ≡ some p'
        → Comes s files (some i) p'
    then_lock {p'} (threads, r, e) k =
        (update i p' threads, later r i refl (lock (ap after_lock e ∙ k)), update_self p' threads)

    pub then_unlock :
        {files : Files} {owner : Option ℕ} {p p' : Thread}
        → Comes s files owner p
        → after_unlock p ≡ some p'
        → Comes s files none p'
    then_unlock {p'} (threads, r, e) k = (
      update i p' threads,
      later r i refl (unlock (ap after_unlock e ∙ k)),
      update_self p' threads,
    )

    pub writing_rest :
        {files : Files} {owner : Option ℕ} (name c : Bytes) (rest : List Bytes) (pending : Bytes)
        → Comes s files owner (writing name rest pending)
        → lookup name files ≡ some c
        → Comes s (store name (c ++ (pending ++ join rest)) files) none idle
    writing_rest name c [] pending now look =
        rw (append-nil pending) (then_unlock (then_call now (fclose_put look)) refl)
    writing_rest name c (piece ∷ rest) pending now look =
        rw (sym (append_assoc pending piece (join rest)))
          (writing_rest name c rest (pending ++ piece) (then_call now fwrite) look)

    pub sized_rest :
        {files : Files} {owner : Option ℕ} (name c : Bytes) (fsize : ℕ)
        → Comes s files owner (sized name fsize)
        → lookup name files ≡ some c
        → Comes s files none (sending name fsize (take fsize c))
    sized_rest name c fsize now look = then_unlock (then_call now (fread look)) refl

  pieces_alone :
      (files : Files) (threads : ℕ → Thread) (name payload : Bytes) (rest : List Bytes)
      → Asked name (payload ∷ rest) puts
      → threads i ≡ idle
      → Comes (shared files none threads) (store name (payload ++ join rest) files) none idle
  pieces_alone files threads name payload rest m e =
      let now = then_lock (then_call (threads, here, e) (request_put m)) refl in
      rw (sym (store-store name [] (payload ++ join rest) files)) (
        writing_rest name [] rest payload (then_call now fopen_wb)
          (lookup-store_self name [] files))

  -- A put of thread `i` with no call of another between its own, when the rest of the chunk comes,
  -- leaves the files that `put` leaves.
  pub put_alone :
      (s : Server) (threads : ℕ → Thread) (buf : Bytes) (header : ℕ) (filename chunk : Bytes)
      (size : ℤ) (time more : Bytes) (inbound : Segments)
      → length (path_of s.dir (entry_name filename chunk time)) < bufsize
      → header ≤ length buf
      → receive_rest (pos_part size - length (drop header buf)) s.inbound ≡ ok (more, inbound)
      → Asked (entry_name filename chunk time) (drop header buf ∷ more ∷ []) puts
      → threads i ≡ idle
      → (s' : Server) × (put buf header filename chunk size time s ≡ ok s')
        × Comes (shared s.files none threads) s'.files none idle
  unfolding put
  put_alone s threads buf header filename chunk size time more inbound fit whole rest m e =
      let name = entry_name filename chunk time in
      (
        send put_ack
            (record s { files = store name (drop header buf ++ more) s.files; inbound = inbound }),
        rw (lt→ltb _ _ fit, header_in, rest) refl,
        rw (ap (λ x. drop header buf ++ x) (append-nil more)) at
            (pieces_alone s.files threads name (drop header buf) (more ∷ []) m e),
      )
    where
      header_in : ltb (length buf) header ≡ false
      header_in = ground arith

  -- A get of thread `i` with no call of another between its own, when the shell names an entry,
  -- sends the size and the content that `get` sends, and leaves the files.
  pub get_alone :
      (m : Memory) (s : Server) (threads : ℕ → Thread) (filename chunk : Bytes)
      → length (find_command s.dir (file_chunk filename chunk)) < bufsize
      → contains (newest_entry sh filename chunk s.files) (file_chunk filename chunk) ≡ true
      → threads i ≡ idle
      → (content : Bytes) × (get sh m filename chunk s ≡ ok (send_file m content s))
        × Comes
            (shared s.files none threads)
            s.files
            none
            (sending (newest_entry sh filename chunk s.files) (length content) content)
  unfolding get
  get_alone m s threads filename chunk fit has e =
      let name = newest_entry sh filename chunk s.files in
      let (content, look) = newest_entry-Has sh filename chunk s.files has in
      let now =
        then_lock
          (then_call (then_call (threads, here, e) (request_get filename chunk)) (popen_some has))
          refl in
      (
        content,
        rw (lt→ltb _ _ fit, has, look) refl,
        rw (take_all (length content) content (omega arith)) at
            (sized_rest name content (length content) (then_call now (measure look)) look),
      )
