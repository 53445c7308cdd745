-- ===== src/Dfc/Get.antt =====
-- The get of PA4/client/dfc.c: for each chunk, the live servers are asked in turn.
use network_systems.Prelude.{
  ℕ, zero, suc, ◌+◌, Bool, true, false, Option, none, some, List, [], ◌∷◌, ◌++◌, if◌then◌else◌, ltb,
  length,
}
use network_systems.CString.{Bytes, cstr, streq, atoi, pos_part}
use network_systems.Stream.{Segments, bufsize}
use network_systems.ChunkServer.{ChunkServer, get_message, ready, not_found_text}
use network_systems.Dfc.Network.{Client, send, receive, update}

-- The size that `chunk_query` reads from the reply; nothing and "Not Found" are 0.
abbrev pub reply_size : Bytes → ℕ
reply_size buf = if streq (cstr buf) not_found_text then 0 else pos_part (atoi (cstr buf))

-- How a search for a chunk ends.
pub record Fetch (server : ChunkServer) : Type 0 where
  pub success : Bool
  pub written : Bytes
  pub client : Client server

module _ {server : ChunkServer} where
  abbrev pub queried : ℕ → Client server → Option (Bytes × Client server) → ℕ × Client server
  queried d c none = (0, record c { live = update c.live d false })
  queried d c (some (buf, c')) = (reply_size buf, c')

  abbrev pub prepend : Bytes → Option (Bytes × Client server) → Option (Bytes × Client server)
  prepend buf none = none
  prepend buf (some (more, c)) = some (buf ++ more, c)

  -- The loop of `write_chunk`. `none`: no reply came, where `recv` returns -1 and the loop writes
  -- from that count, or the fuel ran out.
  unfoldable pub write_loop : ℕ → ℕ → ℕ → ℕ → Client server → Option (Bytes × Client server)
  write_loop zero size total d c = none
  write_loop (suc fuel) size total d c =
      let more : Option (Bytes × Client server) = elim (receive size d c) [
        | none ↦ none
        | some (buf, c') ↦ prepend buf (write_loop fuel size (total + length buf) d c')
      ] in
      if ltb total size then more else some ([], c)

module _ {server : ChunkServer} (cut : Bytes → Segments) where
  -- A server that does not answer in time counts as down from then on.
  unfoldable pub chunk_query : Bytes → ℕ → ℕ → Client server → ℕ × Client server
  chunk_query filename chunk_num d c =
      let sent = send cut d (get_message filename chunk_num) c in
      queried d sent (receive bufsize d sent)

  unfoldable pub write_chunk : ℕ → ℕ → Client server → Option (Bytes × Client server)
  write_chunk d size c = write_loop (suc size) size 0 d (send cut d ready c)

  abbrev pub fetched : Option (Bytes × Client server) → Option (Fetch server)
  fetched none = none
  fetched (some (written, c)) = some (record { success = true; written = written; client = c })

  -- The inner loop of a get, over the servers still to be asked; `received` is the current value
  -- of chunks_received[i - 1] == 1.
  unfoldable pub find_chunk : Bytes → ℕ → List ℕ → Bool → Client server → Option (Fetch server)
  find_chunk filename chunk_num [] received c =
      some (record { success = received; written = []; client = c })
  find_chunk filename chunk_num (d ∷ ds) received c =
      let asked = chunk_query filename chunk_num d c in
      let taken = fetched (write_chunk d asked.0 asked.1) in
      let next = find_chunk filename chunk_num ds false asked.1 in
      let skipped = find_chunk filename chunk_num ds received c in
      if c.live d then (if ltb 0 asked.0 then taken else next) else skipped

  -- The outer loop over the chunks that are left: the file stands in `fp` as far as it was
  -- written, and is removed when a chunk is on no live server. `unset i` is what the array
  -- chunks_received, which is not initialised, holds for chunk i.
  unfoldable pub fetch_chunks :
      Bytes → (ℕ → Bool) → List ℕ → Bytes → Client server → Option (Fetch server)
  fetch_chunks filename unset [] file c =
      some (record { success = true; written = file; client = c })
  fetch_chunks filename unset (i ∷ is) file c =
      elim (find_chunk filename (i + b'0') (1 ∷ 2 ∷ 3 ∷ 4 ∷ []) (unset i) c) [
        | none ↦ none
        | some f ↦
            let more = fetch_chunks filename unset is (file ++ f.written) f.client in
            if f.success
            then more
            else some (record { success = false; written = []; client = f.client })
      ]

  -- One file of a get: the file that is written, or that it was removed.
  unfoldable pub get_file : Bytes → (ℕ → Bool) → Client server → Option (Fetch server)
  get_file filename unset c = fetch_chunks filename unset (1 ∷ 2 ∷ 3 ∷ 4 ∷ []) [] c
