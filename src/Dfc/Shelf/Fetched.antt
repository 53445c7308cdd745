-- ===== src/Dfc/Shelf/Fetched.antt =====
-- About gets from the shelves: the search of a chunk on the live servers and its writing.
use network_systems.Prelude.{
  ℕ, zero, suc, ◌+◌, ◌-◌, ◌≤◌, ◌<◌, ◌≡◌, ◌≢◌, refl, sym, ap, ◌∙◌, true, false, some, [], ◌∷◌, ◌++◌,
  arith, ◌==◌, ==→≡, ltb, ltb→lt, lt→ltb, Bool-cases, inl, inr, length, length-append, join,
}
use network_systems.CString.{Bytes}
use network_systems.Stream.{Segments, recv}
use network_systems.Stream.Laws.{AllFull, recv-Received, Received-length}
use network_systems.ChunkServer.{ChunkServer, get_message, ready}
use network_systems.Dfc.Network.{Client, send, receive, update}
use network_systems.Dfc.Get.{reply_size, chunk_query, write_loop, write_chunk}
use network_systems.Dfc.Exchange.{
  IsTransport, IsQuiet, Exchanged, receive-send, update_self, update_other,
}

module _ {server : ChunkServer} where
  -- The same client, but that server d's stream is empty.
  record Drained (c : Client server) (d : ℕ) (c' : Client server) : Type 0 where
    nodes : c'.nodes ≡ c.nodes
    live : c'.live ≡ c.live
    empty : c'.streams d ≡ []
    others : (e : ℕ) → e ≢ d → c'.streams e ≡ c.streams e

  write_loop_step :
      (fuel size total d : ℕ) (c c₁ c' : Client server) (buf more : Bytes)
      → ltb total size ≡ true
      → receive size d c ≡ some (buf, c₁)
      → write_loop fuel size (total + length buf) d c₁ ≡ some (more, c')
      → write_loop (suc fuel) size total d c ≡ some (buf ++ more, c')
  unfolding write_loop
  write_loop_step fuel size total d c c₁ c' buf more t got loop = rw (t, got, loop)

  receive_eq :
      (size d : ℕ) (c : Client server) (s : Bytes) (rest : Segments)
      → c.streams d ≡ s ∷ rest
      → receive size d c
        ≡ some (
          (recv size (s ∷ rest)).0,
          record c { streams = update c.streams d (recv size (s ∷ rest)).1 },
        )
  unfolding receive
  receive_eq size d c s rest e = rw e

  write_loop_done :
      (fuel size total d : ℕ) (c : Client server)
      → ltb total size ≡ false
      → write_loop (suc fuel) size total d c ≡ some ([], c)
  unfolding write_loop
  write_loop_done fuel size total d c t = rw t

  -- The loop of `write_chunk` writes all that is on the stream, if that is what is left.
  write_loop-Drained :
      (fuel size total d : ℕ) (c : Client server) (segs : Segments)
      → c.streams d ≡ segs
      → AllFull segs
      → total + length (join segs) ≡ size
      → size - total < fuel
      → (c' : Client server) × (write_loop fuel size total d c ≡ some (join segs, c'))
        × Drained c d c'
  write_loop-Drained zero size total d c segs e full l f = absurd (omega arith)
  write_loop-Drained (suc fuel) size total d c [] e full l f =
      let done : ltb total size ≡ false = ground arith in
      (
        c,
        write_loop_done fuel size total d c done,
        record { nodes = refl; live = refl; empty = e; others = λ _ _. refl },
      )
  write_loop-Drained (suc fuel) size total d c (s ∷ rest) e full l f =
      let more : ltb total size ≡ true =
        lt→ltb total size (omega (arith, length-append s (join rest), full.0)) in
      let r = recv-Received size (s ∷ rest) (omega (arith, ltb→lt total size more)) full in
      let got = (recv size (s ∷ rest)).0 in
      let left = (recv size (s ∷ rest)).1 in
      let some_read =
        r.progress (omega (arith, ltb→lt total size more))
          (omega (arith, length-append s (join rest), full.0)) in
      let c₁ = record c { streams = update c.streams d left } in
      let (c', loop, dr) =
        write_loop-Drained fuel size (total + length got) d c₁ left (update_self c.streams d left)
          r.full (omega (arith, Received-length r))
          (omega (arith, some_read, ltb→lt total size more)) in
      (
        c',
        write_loop_step fuel size total d c c₁ c' got (join left) more
              (receive_eq size d c s rest e) loop
            ∙ ap (λ b. some (b, c')) (sym r.splits),
        record {
          nodes = dr.nodes;
          live = dr.live;
          empty = dr.empty;
          others = λ e' h. dr.others e' h ∙ update_other c.streams d left e' h;
        },
      )

module _ {server : ChunkServer} {cut : Bytes → Segments} (net : IsTransport cut) where
  -- After "Ready" the whole chunk is written, however the network cuts it.
  pub write_chunk-Exchanged :
      (c : Client server) (d : ℕ) (chunk : Bytes)
      → IsQuiet c
      → (server.exchange ready (c.nodes d)).0 ≡ some chunk
      → (c' : Client server) × (write_chunk cut d (length chunk) c ≡ some (chunk, c'))
        × Exchanged net c d ready c'
  unfolding write_chunk send
  write_chunk-Exchanged c d chunk quiet replied =
      let whole = ap length (net.joins chunk) in
      let (c', loop, dr) =
        write_loop-Drained (suc (length chunk)) (length chunk) 0 d (send cut d ready c) (cut chunk)
          stream (net.full chunk) (omega (arith, whole)) (omega arith) in
      (
        c',
        loop ∙ ap (λ b. some (b, c')) (net.joins chunk),
        record {
          node = ap (λ (n : ℕ → server.State). n d) dr.nodes ∙ update_self c.nodes d node;
          others =
              λ e h. ap (λ (n : ℕ → server.State). n e) dr.nodes ∙ update_other c.nodes d node e h;
          live = dr.live;
          quiet = λ e. elim (Bool-cases (e == d)) [
            | inl same ↦ let eq : e ≡ d = ==→≡ e d same in rw eq dr.empty
            | inr other ↦
                let ne : e ≢ d = ground arith in
                dr.others e ne ∙ update_other c.streams d _ e ne ∙ quiet e
          ];
        },
      )
    where
      node : server.State
      node = (server.exchange ready (c.nodes d)).1

      stream : (send cut d ready c).streams d ≡ cut chunk
      stream = update_self c.streams d _ ∙ rw (quiet d, replied)

  -- The answer of a server: the size that it names, or 0 for "Not Found".
  pub chunk_query-Exchanged :
      (c : Client server) (filename : Bytes) (a d : ℕ) (reply : Bytes)
      → IsQuiet c
      → (server.exchange (get_message filename a) (c.nodes d)).0 ≡ some reply
      → 0 < length reply
      → length reply ≤ 1024
      → (c' : Client server) × (chunk_query cut filename a d c ≡ (reply_size reply, c'))
        × Exchanged net c d (get_message filename a) c'
  unfolding chunk_query
  chunk_query-Exchanged c filename a d reply quiet replied some_bytes short =
      let (c', took, x) =
        receive-send net c d (get_message filename a) reply quiet replied some_bytes short in
      (c', rw took, x)
