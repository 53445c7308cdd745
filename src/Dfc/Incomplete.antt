-- ===== src/Dfc/Incomplete.antt =====
-- A get of PA4/client/dfc.c when a chunk is on no server that is up.
use network_systems.Prelude.{
  ℕ, zero, suc, ◌+◌, ◌≤◌, ◌<◌, ◌≡◌, refl, ap, ◌∙◌, Bool, true, false, ◌||◌, ◌&&◌, some, List, [],
  ◌∷◌, ◌++◌, arith, Bool-cases, inl, inr, ◌⊎◌, length,
}
use network_systems.CString.{Bytes}
use network_systems.Stream.{Segments}
use network_systems.ChunkServer.{ChunkServer, ServerLaws}
use network_systems.Dfc.Network.{Client}
use network_systems.Dfc.Put.{running, split, put_file}
use network_systems.Dfc.Get.{get_file, fetch_chunks, find_chunk}
use network_systems.Dfc.Exchange.{IsTransport}
use network_systems.Dfc.Shelf.{IsChunk, AllSendable}
use network_systems.Dfc.Shelf.Placed.{Filled, no_shelf, UpAll}
use network_systems.Dfc.Shelf.Found.{on_some, find_skipped, find_lacking, find_chunk-Found}
use network_systems.Dfc.Split.{part_of, length-split}
use network_systems.Dfc.Placement.{table, put_file-Opened}
use network_systems.Dfc.RoundTrip.{new_session, Stock-new_session, fetch_chunks_step}

-- Whether some server of the list is up.
abbrev pub some_up : (ℕ → Bool) → List ℕ → Bool
some_up live [] = false
some_up live (d ∷ ds) = live d || some_up live ds

-- Two servers that are neighbours in the ring are down.
abbrev pub BothDown : (ℕ → Bool) → Type 0
BothDown live =
    ((live 1 || live 2) && ((live 2 || live 3) && ((live 3 || live 4) && (live 4 || live 1))))
    ≡ false

fetch_chunks_stop :
    {server : ChunkServer} (cut : Bytes → Segments) (filename : Bytes) (unset : ℕ → Bool) (i : ℕ)
    (is : List ℕ) (done : Bytes) (c c₁ : Client server)
    → find_chunk cut filename (i + b'0') (1 ∷ 2 ∷ 3 ∷ 4 ∷ []) (unset i) c
      ≡ some (record { success = false; written = []; client = c₁ })
    → fetch_chunks cut filename unset (i ∷ is) done c
      ≡ some (record { success = false; written = []; client = c₁ })
unfolding fetch_chunks
fetch_chunks_stop cut filename unset i is done c c₁ missing = rw (missing, fetch_chunks)

module _ {server : ChunkServer} {filename : Bytes} {time : ℕ}
    (laws : ServerLaws server filename time) (file : Bytes)
    (sendable : AllSendable laws (part_of (split file))) {cut : Bytes → Segments}
    (net : IsTransport cut) where
  abbrev Stock : Client server → (ℕ → ℕ → Bool) → (ℕ → Bool) → Type 0
  Stock = Filled laws (part_of (split file)) sendable net

  -- The search asks each server that is up; one that was asked has overwritten the value that
  -- stood in the array.
  find_chunk-missing :
      (ds : List ℕ) (a : ℕ) (r : Bool) (c : Client server) (at : ℕ → ℕ → Bool) (live : ℕ → Bool)
      → IsChunk a
      → Stock c at live
      → on_some live at a ds ≡ false
      → (some_up live ds ≡ true) ⊎ (r ≡ false)
      → (c' : Client server) × (find_chunk cut filename a ds r c
          ≡ some (record { success = false; written = []; client = c' }))
  unfolding find_chunk
  find_chunk-missing [] a r c at live is f h (inl up) = cc up
  find_chunk-missing [] a r c at live is f h (inr clear) = (c, rw clear refl)
  find_chunk-missing (d ∷ ds) a r c at live is f h asked = elim (Bool-cases (live d)) [
    | inr down ↦
        let (c', missing) =
          find_chunk-missing ds a r c at live is f (rw down at h) (rw down at asked) in
        (c', find_skipped cut filename a d ds r c (lives d ∙ down) ∙ missing)
    | inl up ↦
        let lacks : at d a ≡ false = ground arith in
        let (c₁, next, f₁) =
          find_lacking laws (part_of (split file)) sendable net d ds a r c at live is (lives d ∙ up)
            (rw lacks at (f.stocked d a is)) f in
        let (c', missing) =
          find_chunk-missing ds a false c₁ at live is f₁ (rw (up, lacks) at h) (inr refl) in
        (c', next ∙ missing)
  ]
    where
      lives : (e : ℕ) → c.live e ≡ live e
      lives e = ap (λ (l : ℕ → Bool). l e) f.lives

  -- Chunks that can be found, if they are on a server that is up.
  abbrev AllParts : List ℕ → Type 0
  AllParts [] = Unit
  AllParts (i ∷ is) =
      (IsChunk (i + b'0') × (0 < length (part_of (split file) (i + b'0')))) × AllParts is

  abbrev all_on : (ℕ → Bool) → (ℕ → ℕ → Bool) → List ℕ → Bool
  all_on live at [] = true
  all_on live at (i ∷ is) = on_some live at (i + b'0') (1 ∷ 2 ∷ 3 ∷ 4 ∷ []) && all_on live at is

  fetch_chunks-missing :
      (unset : ℕ → Bool) (is : List ℕ) (done : Bytes) (c : Client server) (at : ℕ → ℕ → Bool)
      (live : ℕ → Bool)
      → Stock c at live
      → AllParts is
      → some_up live (1 ∷ 2 ∷ 3 ∷ 4 ∷ []) ≡ true
      → all_on live at is ≡ false
      → (c' : Client server) × (fetch_chunks cut filename unset is done c
          ≡ some (record { success = false; written = []; client = c' }))
  fetch_chunks-missing unset [] done c at live f all up h = cc h
  fetch_chunks-missing unset (i ∷ is) done c at live f ((chunk, some_bytes), all) up h =
      elim (Bool-cases (on_some live at (i + b'0') (1 ∷ 2 ∷ 3 ∷ 4 ∷ []))) [
        | inl on ↦
            let (c₁, found, f₁) =
              find_chunk-Found laws (part_of (split file)) sendable net (1 ∷ 2 ∷ 3 ∷ 4 ∷ [])
                (i + b'0') (unset i) c at live chunk some_bytes f on in
            let (c', rest) =
              fetch_chunks-missing unset is (done ++ part_of (split file) (i + b'0')) c₁ at live f₁
                all up (rw on at h) in
            (
              c',
              fetch_chunks_step cut filename unset i is done (part_of (split file) (i + b'0')) c c₁
                    found
                  ∙ rest,
            )
        | inr off ↦
            let (c', missing) =
              find_chunk-missing (1 ∷ 2 ∷ 3 ∷ 4 ∷ []) (i + b'0') (unset i) c at live chunk f off
                (inl up) in
            (c', fetch_chunks_stop cut filename unset i is done c c' missing)
      ]

  all_on-BothDown :
      (x : ℕ) (live : ℕ → Bool)
      → x < 4
      → BothDown live
      → all_on live (table x) (1 ∷ 2 ∷ 3 ∷ 4 ∷ []) ≡ false
  all_on-BothDown zero live h down = ground arith
  all_on-BothDown (suc zero) live h down = ground arith
  all_on-BothDown (suc (suc zero)) live h down = ground arith
  all_on-BothDown (suc (suc (suc zero))) live h down = ground arith
  all_on-BothDown (suc (suc (suc (suc x)))) live h down = absurd (omega arith)

  all_parts : 4 ≤ length file → AllParts (1 ∷ 2 ∷ 3 ∷ 4 ∷ [])
  all_parts long =
      let (l₁, l₂, l₃, l₄) = length-split file in
      (
        ((omega arith, omega arith), omega arith),
        (
          ((omega arith, omega arith), omega arith),
          (
            ((omega arith, omega arith), omega arith),
            (((omega arith, omega arith), omega arith), tt),
          ),
        ),
      )

  -- After a put with all four servers up, a get in a later session in which two neighbouring
  -- servers are down, but some server is up, reports the file as incomplete and leaves no part of
  -- it, whatever stood in the array that is not initialised.
  pub get_file-BothDown :
      (x : ℕ) (c : Client server) (live live' unset : ℕ → Bool)
      → x < 4
      → 4 ≤ length file
      → UpAll live
      → Stock c no_shelf live
      → BothDown live'
      → some_up live' (1 ∷ 2 ∷ 3 ∷ 4 ∷ []) ≡ true
      → (c₁ c₂ : Client server) × (put_file cut filename time x file c ≡ running c₁)
        × (get_file cut filename unset (new_session live' c₁)
            ≡ some (record { success = false; written = []; client = c₂ }))
  unfolding get_file
  get_file-BothDown x c live live' unset h long all_up f down up =
      let (c₁, ran, f₁) = put_file-Opened laws file sendable net no_shelf x c live h all_up f in
      let (c₂, got) =
        fetch_chunks-missing unset (1 ∷ 2 ∷ 3 ∷ 4 ∷ []) [] (new_session live' c₁) (table x) live'
          (Stock-new_session laws file sendable net c₁ (table x) live live' f₁) (all_parts long) up
          (all_on-BothDown x live' h down) in
      (c₁, c₂, ran, got)
