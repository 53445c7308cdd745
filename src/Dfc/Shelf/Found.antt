-- ===== src/Dfc/Shelf/Found.antt =====
-- The search of a get over the servers: the first live one that has the chunk gives it.
use network_systems.Prelude.{
  ℕ, ◌<◌, ◌≡◌, ◌≢◌, ap, ◌∙◌, Bool, true, false, ◌&&◌, ◌||◌, Option, some, List, [], ◌∷◌, ◌++◌,
  arith, ◌==◌, ==→≡, lt→ltb, Bool-cases, inl, inr, length,
}
use network_systems.CString.{Bytes}
use network_systems.Stream.{Segments}
use network_systems.ChunkServer.{ChunkServer, ServerLaws, ready, not_found_text}
use network_systems.Dfc.Network.{Client}
use network_systems.Dfc.Get.{Fetch, reply_size, chunk_query, write_chunk, find_chunk}
use network_systems.Dfc.Exchange.{IsTransport, IsQuiet}
use network_systems.Dfc.Shelf.{IsChunk, Slot, AllSendable}
use network_systems.Dfc.Shelf.Placed.{Filled}
use network_systems.Dfc.Shelf.Fetched.{write_chunk-Exchanged, chunk_query-Exchanged}

-- Whether some live server of the list has the chunk.
abbrev pub on_some : (ℕ → Bool) → (ℕ → ℕ → Bool) → ℕ → List ℕ → Bool
on_some live table a [] = false
on_some live table a (d ∷ ds) = (live d && table d a) || on_some live table a ds

module _ {server : ChunkServer} (cut : Bytes → Segments) where
  pub find_skipped :
      (filename : Bytes) (a d : ℕ) (ds : List ℕ) (r : Bool) (c : Client server)
      → c.live d ≡ false
      → find_chunk cut filename a (d ∷ ds) r c ≡ find_chunk cut filename a ds r c
  unfolding find_chunk
  find_skipped filename a d ds r c down = rw down

  find_next :
      (filename : Bytes) (a d : ℕ) (ds : List ℕ) (r : Bool) (c c' : Client server)
      → c.live d ≡ true
      → chunk_query cut filename a d c ≡ (0, c')
      → find_chunk cut filename a (d ∷ ds) r c ≡ find_chunk cut filename a ds false c'
  unfolding find_chunk
  find_next filename a d ds r c c' up asked = rw (up, asked)

  find_here :
      (filename : Bytes) (a d size : ℕ) (ds : List ℕ) (r : Bool) (c c₁ c₂ : Client server)
      (chunk : Bytes)
      → c.live d ≡ true
      → chunk_query cut filename a d c ≡ (size, c₁)
      → 0 < size
      → write_chunk cut d size c₁ ≡ some (chunk, c₂)
      → find_chunk cut filename a (d ∷ ds) r c
        ≡ some (record { success = true; written = chunk; client = c₂ })
  unfolding find_chunk
  find_here filename a d size ds r c c₁ c₂ chunk up asked some_bytes written =
      rw (up, asked, lt→ltb 0 size some_bytes, written)

module _ {server : ChunkServer} {filename : Bytes} {time : ℕ}
    (laws : ServerLaws server filename time) (part : ℕ → Bytes) (sendable : AllSendable laws part)
    {cut : Bytes → Segments} (net : IsTransport cut) where
  -- What a server has and lacks is the same in both states.
  abbrev Keeps : server.State → server.State → Type 0
  Keeps s s' =
      ((d : ℕ) (other : Bytes) → laws.Holds s d other → laws.Holds s' d other)
      × ((d : ℕ) → laws.Lacks s d → laws.Lacks s' d)

  Slot-Keeps :
      (b : Bool) {s s' : server.State} (c : ℕ)
      → Keeps s s'
      → Slot laws part b s c
      → Slot laws part b s' c
  Slot-Keeps true c k h = k.0 c (part c) h
  Slot-Keeps false c k h = k.1 c h

  abbrev pub Ready : Client server → (ℕ → ℕ → Bool) → (ℕ → Bool) → Type 0
  Ready = Filled laws part sendable net

  -- A client whose server d went on without a change to what it has is as ready as before.
  Ready-Keeps :
      (c c' : Client server) (d : ℕ) (table : ℕ → ℕ → Bool) (live : ℕ → Bool)
      → Ready c table live
      → Keeps (c.nodes d) (c'.nodes d)
      → ((e : ℕ) → e ≢ d → c'.nodes e ≡ c.nodes e)
      → c'.live ≡ c.live
      → IsQuiet c'
      → Ready c' table live
  Ready-Keeps c c' d table live f k others lives quiet = record {
    stocked = λ e. elim (Bool-cases (e == d)) [
      | inl same ↦
          let eq : e ≡ d = ==→≡ e d same in
          rw eq (λ i is. Slot-Keeps (table d i) i k (f.stocked d i is))
      | inr other ↦ let ne : e ≢ d = ground arith in rw (others e ne) (f.stocked e)
    ];
    lives = lives ∙ f.lives;
    quiet = quiet;
  }

  abbrev pub Found : Option (Fetch server) → ℕ → (ℕ → ℕ → Bool) → (ℕ → Bool) → Type 0
  Found r a table live =
      (c' : Client server) × (r ≡ some (record { success = true; written = part a; client = c' }))
      × Ready c' table live

  find_held :
      (d : ℕ) (ds : List ℕ) (a : ℕ) (r : Bool) (c : Client server) (table : ℕ → ℕ → Bool)
      (live : ℕ → Bool)
      → IsChunk a
      → 0 < length (part a)
      → c.live d ≡ true
      → laws.Holds (c.nodes d) a (part a)
      → Ready c table live
      → Found (find_chunk cut filename a (d ∷ ds) r c) a table live
  find_held d ds a r c table live is some_bytes up held f =
      let (reply, replied, full, short, not_missing, size, content) =
        laws.query_held (c.nodes d) a (part a) (sendable a is) held in
      let (c₁, asked, x₁) =
        chunk_query-Exchanged net c filename a d reply f.quiet replied full short in
      let sized : reply_size reply ≡ length (part a) = rw (not_missing, size) in
      let answered : (server.exchange ready (c₁.nodes d)).0 ≡ some (part a) = rw x₁.node content in
      let (c₂, written, x₂) = write_chunk-Exchanged net c₁ d (part a) x₁.quiet answered in
      (
        c₂,
        find_here cut filename a d (length (part a)) ds r c c₁ c₂ (part a) up
            (asked ∙ ap (λ (n : ℕ). (n, c₁)) sized) some_bytes written,
        Ready-Keeps c c₂ d table live f
            (rw (x₂.node, x₁.node) (laws.held_keeps (c.nodes d) a (part a) (sendable a is) held))
            (λ e h. x₂.others e h ∙ x₁.others e h) (x₂.live ∙ x₁.live) x₂.quiet,
      )

  pub find_lacking :
      (d : ℕ) (ds : List ℕ) (a : ℕ) (r : Bool) (c : Client server) (table : ℕ → ℕ → Bool)
      (live : ℕ → Bool)
      → IsChunk a
      → c.live d ≡ true
      → laws.Lacks (c.nodes d) a
      → Ready c table live
      → (c' : Client server) × (find_chunk cut filename a (d ∷ ds) r c
          ≡ find_chunk cut filename a ds false c')
        × Ready c' table live
  find_lacking d ds a r c table live is up lacks f =
      let (replied, holds, misses) =
        laws.query_lacks (c.nodes d) a (part a) (sendable a is) lacks in
      let (c₁, asked, x₁) =
        chunk_query-Exchanged net c filename a d (not_found_text ++ 0 ∷ []) f.quiet replied
          (omega arith) (omega arith) in
      (
        c₁,
        find_next cut filename a d ds r c c₁ up asked,
        Ready-Keeps c c₁ d table live f (rw x₁.node (holds, misses)) x₁.others x₁.live x₁.quiet,
      )

  -- If a live server of the list has the chunk, the search writes the chunk, whole.
  pub find_chunk-Found :
      (ds : List ℕ) (a : ℕ) (r : Bool) (c : Client server) (table : ℕ → ℕ → Bool) (live : ℕ → Bool)
      → IsChunk a
      → 0 < length (part a)
      → Ready c table live
      → on_some live table a ds ≡ true
      → Found (find_chunk cut filename a ds r c) a table live
  find_chunk-Found [] a r c table live is some_bytes f h = cc
  find_chunk-Found (d ∷ ds) a r c table live is some_bytes f h = elim (Bool-cases (live d)) [
    | inr down ↦
        let (c', found, f') = find_chunk-Found ds a r c table live is some_bytes f (rw down at h) in
        (c', find_skipped cut filename a d ds r c (lives d ∙ down) ∙ found, f')
    | inl up ↦ elim (Bool-cases (table d a)) [
      | inl has ↦
          find_held d ds a r c table live is some_bytes (lives d ∙ up)
            (rw has at (f.stocked d a is)) f
      | inr lacks ↦
          let (c₁, next, f₁) =
            find_lacking d ds a r c table live is (lives d ∙ up) (rw lacks at (f.stocked d a is))
              f in
          let (c', found, f') =
            find_chunk-Found ds a false c₁ table live is some_bytes f₁ (rw (up, lacks) at h) in
          (c', next ∙ found, f')
    ]
  ]
    where
      lives : (e : ℕ) → c.live e ≡ live e
      lives e = ap (λ (l : ℕ → Bool). l e) f.lives
