-- ===== src/Dfc/RoundTrip.antt =====
-- A put of a file and a later get of it, in a new session.
use network_systems.Prelude.{
  ℕ, zero, suc, ◌+◌, ◌≤◌, ◌<◌, ◌≡◌, refl, ap, ◌∙◌, Bool, true, false, ◌||◌, some, List, [], ◌∷◌,
  ◌++◌, arith, length, append-nil, append_assoc,
}
use network_systems.CString.{Bytes}
use network_systems.Stream.{Segments}
use network_systems.ChunkServer.{ChunkServer, ServerLaws}
use network_systems.Dfc.Network.{Client}
use network_systems.Dfc.Put.{running, split, put_file}
use network_systems.Dfc.Get.{get_file, fetch_chunks, find_chunk}
use network_systems.Dfc.Exchange.{IsTransport}
use network_systems.Dfc.Shelf.{IsChunk, Slot, AllSendable}
use network_systems.Dfc.Shelf.Placed.{Filled, no_shelf, UpAll}
use network_systems.Dfc.Shelf.Found.{on_some, find_chunk-Found}
use network_systems.Dfc.Split.{part_of, split-join, length-split}
use network_systems.Dfc.Placement.{table, put_file-Opened}

pub fetch_chunks_step :
    {server : ChunkServer} (cut : Bytes → Segments) (filename : Bytes) (unset : ℕ → Bool) (i : ℕ)
    (is : List ℕ) (done chunk : Bytes) (c c₁ : Client server)
    → find_chunk cut filename (i + b'0') (1 ∷ 2 ∷ 3 ∷ 4 ∷ []) (unset i) c
      ≡ some (record { success = true; written = chunk; client = c₁ })
    → fetch_chunks cut filename unset (i ∷ is) done c
      ≡ fetch_chunks cut filename unset is (done ++ chunk) c₁
unfolding fetch_chunks
fetch_chunks_step cut filename unset i is done chunk c c₁ found = rw (found, fetch_chunks)

-- The client of a new session: new connections, to the servers that are up then.
abbrev pub new_session : {server : ChunkServer} → (ℕ → Bool) → Client server → Client server
new_session {server} live c = record {
  nodes = λ d. server.connect (c.nodes d);
  streams = λ d. [];
  closed = λ d. false;
  live = live;
}

-- Of two neighbours in the ring of servers one at least is up.
abbrev pub OneOfTwo : (ℕ → Bool) → Type 0
OneOfTwo live =
    ((live 1 || live 2) ≡ true)
    × ((live 2 || live 3) ≡ true)
    × ((live 3 || live 4) ≡ true)
    × ((live 4 || live 1) ≡ true)

module _ {server : ChunkServer} {filename : Bytes} {time : ℕ}
    (laws : ServerLaws server filename time) (file : Bytes)
    (sendable : AllSendable laws (part_of (split file))) {cut : Bytes → Segments}
    (net : IsTransport cut) where
  abbrev Stock : Client server → (ℕ → ℕ → Bool) → (ℕ → Bool) → Type 0
  Stock = Filled laws (part_of (split file)) sendable net

  -- The parts with the given numbers, one after the other.
  abbrev parts_at : List ℕ → Bytes
  parts_at [] = []
  parts_at (i ∷ is) = part_of (split file) (i + b'0') ++ parts_at is

  abbrev AllFound : (ℕ → ℕ → Bool) → (ℕ → Bool) → List ℕ → Type 0
  AllFound at live [] = Unit
  AllFound at live (i ∷ is) =
      (IsChunk (i + b'0')
        × (0 < length (part_of (split file) (i + b'0')))
        × (on_some live at (i + b'0') (1 ∷ 2 ∷ 3 ∷ 4 ∷ []) ≡ true))
      × AllFound at live is

  fetch_chunks-parts :
      (unset : ℕ → Bool) (is : List ℕ) (done : Bytes) (c : Client server) (at : ℕ → ℕ → Bool)
      (live : ℕ → Bool)
      → Stock c at live
      → AllFound at live is
      → (c' : Client server) × (fetch_chunks cut filename unset is done c
          ≡ some (record { success = true; written = done ++ parts_at is; client = c' }))
        × Stock c' at live
  unfolding fetch_chunks
  fetch_chunks-parts unset [] done c at live f all = (c, rw append-nil, f)
  fetch_chunks-parts unset (i ∷ is) done c at live f ((chunk, some_bytes, on), all) =
      let (c₁, found, f₁) =
        find_chunk-Found laws (part_of (split file)) sendable net (1 ∷ 2 ∷ 3 ∷ 4 ∷ []) (i + b'0')
          (unset i) c at live chunk some_bytes f on in
      let (c', rest, f') =
        fetch_chunks-parts unset is (done ++ part_of (split file) (i + b'0')) c₁ at live f₁ all in
      (
        c',
        fetch_chunks_step cut filename unset i is done (part_of (split file) (i + b'0')) c c₁ found
            ∙ rest
            ∙ rw append_assoc,
        f',
      )

  all_covered :
      (x a : ℕ) (live : ℕ → Bool)
      → x < 4
      → IsChunk a
      → OneOfTwo live
      → on_some live (table x) a (1 ∷ 2 ∷ 3 ∷ 4 ∷ []) ≡ true
  all_covered zero a live h is up = ground arith
  all_covered (suc zero) a live h is up = ground arith
  all_covered (suc (suc zero)) a live h is up = ground arith
  all_covered (suc (suc (suc zero))) a live h is up = ground arith
  all_covered (suc (suc (suc (suc x)))) a live h is up = absurd (omega arith)

  Slot-connect :
      (b : Bool) (s : server.State) (a : ℕ)
      → Slot laws (part_of (split file)) b s a
      → Slot laws (part_of (split file)) b (server.connect s) a
  Slot-connect true s a h = laws.connect_Holds s a (part_of (split file) a) h
  Slot-connect false s a h = laws.connect_Lacks s a h

  pub Stock-new_session :
      (c : Client server) (at : ℕ → ℕ → Bool) (live live' : ℕ → Bool)
      → Stock c at live
      → Stock (new_session live' c) at live'
  Stock-new_session c at live live' f = record {
    stocked = λ d a is. Slot-connect (at d a) (c.nodes d) a (f.stocked d a is);
    lives = refl;
    quiet = λ d. refl;
  }

  all_found :
      (x : ℕ) (live : ℕ → Bool)
      → x < 4
      → 4 ≤ length file
      → OneOfTwo live
      → AllFound (table x) live (1 ∷ 2 ∷ 3 ∷ 4 ∷ [])
  all_found x live h long up =
      let (l₁, l₂, l₃, l₄) = length-split file in
      let is₁ : IsChunk b'1' = (omega arith, omega arith) in
      let is₂ : IsChunk b'2' = (omega arith, omega arith) in
      let is₃ : IsChunk b'3' = (omega arith, omega arith) in
      let is₄ : IsChunk b'4' = (omega arith, omega arith) in
      (
        (is₁, omega arith, all_covered x b'1' live h is₁ up),
        (
          (is₂, omega arith, all_covered x b'2' live h is₂ up),
          (
            (is₃, omega arith, all_covered x b'3' live h is₃ up),
            ((is₄, omega arith, all_covered x b'4' live h is₄ up), tt),
          ),
        ),
      )

  -- A get on servers that have the file, of which enough are up, leaves them as they are.
  pub get_file-Stock :
      (x : ℕ) (c : Client server) (live unset : ℕ → Bool)
      → x < 4
      → 4 ≤ length file
      → Stock c (table x) live
      → OneOfTwo live
      → (c' : Client server) × (get_file cut filename unset c
          ≡ some (record { success = true; written = file; client = c' }))
        × Stock c' (table x) live
  unfolding get_file
  get_file-Stock x c live unset h long f two =
      let (c', got, f') =
        fetch_chunks-parts unset (1 ∷ 2 ∷ 3 ∷ 4 ∷ []) [] c (table x) live f
          (all_found x live h long two) in
      (c', got ∙ ap (λ b. some (record { success = true; written = b; client = c' })) whole, f')
    where
      whole : parts_at (1 ∷ 2 ∷ 3 ∷ 4 ∷ []) ≡ file
      whole = rw append-nil (split-join file)

  -- On servers that keep their laws and have nothing of the file, over connections that lose
  -- nothing: a file of at least four bytes that was put with all four servers up is got back byte for byte
  -- in a later session, if of any two neighbouring servers one at least is up then; so whichever
  -- single server fails, or two that are opposite, and whatever the hash of the name.
  pub get_file-put_file :
      (x : ℕ) (c : Client server) (live live' : ℕ → Bool) (unset : ℕ → Bool)
      → x < 4
      → 4 ≤ length file
      → UpAll live
      → Stock c no_shelf live
      → OneOfTwo live'
      → (c₁ c₂ : Client server) × (put_file cut filename time x file c ≡ running c₁)
        × (get_file cut filename unset (new_session live' c₁)
            ≡ some (record { success = true; written = file; client = c₂ }))
  get_file-put_file x c live live' unset h long up f two =
      let (c₁, ran, f₁) = put_file-Opened laws file sendable net no_shelf x c live h up f in
      let (c₂, got, f₂) =
        get_file-Stock x (new_session live' c₁) live' unset h long
          (Stock-new_session c₁ (table x) live live' f₁) two in
      (c₁, c₂, ran, got)
