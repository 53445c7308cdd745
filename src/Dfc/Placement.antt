-- ===== src/Dfc/Placement.antt =====
-- Where a put places the chunks of its file.
use network_systems.Prelude.{
  ℕ, zero, suc, ◌+◌, ◌-◌, ◌%◌, ◌≤◌, ◌<◌, ◌≡◌, refl, sym, Bool, true, false, arith, if◌then◌else◌,
  ◌==◌, ltb,
}
use network_systems.CString.{Bytes}
use network_systems.Stream.{Segments}
use network_systems.ChunkServer.{ChunkServer, ServerLaws}
use network_systems.Dfc.Network.{Client}
use network_systems.Dfc.Put.{running, split, put_file, place_x0, place_x1, place_x2, place_x3}
use network_systems.Dfc.Exchange.{IsTransport}
use network_systems.Dfc.Shelf.{IsChunk, Shelf, OpenSlot, Slot, AllSendable}
use network_systems.Dfc.Shelf.Placed.{Opened, Filled, pairs-Opened, no_shelf, stock, UpAll}
use network_systems.Dfc.Split.{part_of}

-- The two chunks of each server, by the hash of the name.
abbrev pub table : ℕ → ℕ → ℕ → Bool
table x =
    if x == 0
    then stock (b'1', b'2') (b'2', b'3') (b'3', b'4') (b'4', b'1')
    else if x == 1
    then stock (b'4', b'1') (b'1', b'2') (b'2', b'3') (b'3', b'4')
    else if x == 2
    then stock (b'3', b'4') (b'4', b'1') (b'1', b'2') (b'2', b'3')
    else stock (b'2', b'3') (b'3', b'4') (b'4', b'1') (b'1', b'2')

-- Where the chunks stand, by a formula: server d has chunk c when c + x - d is 0 or 1 modulo 4.
abbrev pub placed : ℕ → ℕ → ℕ → Bool
placed x d c = ltb ((c - b'1' + x + 5 - d) % 4) 2

table-eq-placed : (x d c : ℕ) → x < 4 → 1 ≤ d → d ≤ 4 → IsChunk c → table x d c ≡ placed x d c
table-eq-placed zero d c h l u is = ground arith
table-eq-placed (suc zero) d c h l u is = ground arith
table-eq-placed (suc (suc zero)) d c h l u is = ground arith
table-eq-placed (suc (suc (suc zero))) d c h l u is = ground arith
table-eq-placed (suc (suc (suc (suc x)))) d c h l u is = absurd (omega arith)

module _ {server : ChunkServer} {filename : Bytes} {time : ℕ}
    (laws : ServerLaws server filename time) (file : Bytes)
    (sendable : AllSendable laws (part_of (split file))) {cut : Bytes → Segments}
    (net : IsTransport cut) where
  abbrev Stock : Client server → (ℕ → ℕ → Bool) → (ℕ → Bool) → Type 0
  Stock = Filled laws (part_of (split file)) sendable net

  pub put_file-Opened :
      (plan : ℕ → ℕ → Bool) (x : ℕ) (c : Client server) (live : ℕ → Bool)
      → x < 4
      → UpAll live
      → Opened laws (part_of (split file)) sendable net plan c no_shelf live
      → (c' : Client server) × (put_file cut filename time x file c ≡ running c')
        × Opened laws (part_of (split file)) sendable net plan c' (table x) live
  unfolding put_file place_x0 place_x1 place_x2 place_x3
  put_file-Opened plan zero c live h up f =
      pairs-Opened laws (part_of (split file)) sendable net plan (b'1', b'2') (b'2', b'3')
        (b'3', b'4') (b'4', b'1') c live
        ((omega arith, omega arith), (omega arith, omega arith), refl)
        ((omega arith, omega arith), (omega arith, omega arith), refl)
        ((omega arith, omega arith), (omega arith, omega arith), refl)
        ((omega arith, omega arith), (omega arith, omega arith), refl) up f
  put_file-Opened plan (suc zero) c live h up f =
      pairs-Opened laws (part_of (split file)) sendable net plan (b'4', b'1') (b'1', b'2')
        (b'2', b'3') (b'3', b'4') c live
        ((omega arith, omega arith), (omega arith, omega arith), refl)
        ((omega arith, omega arith), (omega arith, omega arith), refl)
        ((omega arith, omega arith), (omega arith, omega arith), refl)
        ((omega arith, omega arith), (omega arith, omega arith), refl) up f
  put_file-Opened plan (suc (suc zero)) c live h up f =
      pairs-Opened laws (part_of (split file)) sendable net plan (b'3', b'4') (b'4', b'1')
        (b'1', b'2') (b'2', b'3') c live
        ((omega arith, omega arith), (omega arith, omega arith), refl)
        ((omega arith, omega arith), (omega arith, omega arith), refl)
        ((omega arith, omega arith), (omega arith, omega arith), refl)
        ((omega arith, omega arith), (omega arith, omega arith), refl) up f
  put_file-Opened plan (suc (suc (suc zero))) c live h up f =
      pairs-Opened laws (part_of (split file)) sendable net plan (b'2', b'3') (b'3', b'4')
        (b'4', b'1') (b'1', b'2') c live
        ((omega arith, omega arith), (omega arith, omega arith), refl)
        ((omega arith, omega arith), (omega arith, omega arith), refl)
        ((omega arith, omega arith), (omega arith, omega arith), refl)
        ((omega arith, omega arith), (omega arith, omega arith), refl) up f
  put_file-Opened plan (suc (suc (suc (suc x)))) c live h up f = absurd (omega arith)

  Slot-done :
      (b : Bool) (s : server.State) (c : ℕ)
      → OpenSlot laws (part_of (split file)) b b s c
      → Slot laws (part_of (split file)) b s c
  Slot-done true s c h = h
  Slot-done false s c h = h

  -- A put over an older version, of which each server has no more than the chunks that it gets.
  pub put_file-replaced :
      (x : ℕ) (c : Client server) (live : ℕ → Bool)
      → x < 4
      → UpAll live
      → Opened laws (part_of (split file)) sendable net (table x) c no_shelf live
      → (c' : Client server) × (put_file cut filename time x file c ≡ running c')
        × Stock c' (table x) live
  put_file-replaced x c live h up f =
      let (c', ran, f') = put_file-Opened (table x) x c live h up f in
      (
        c',
        ran,
        record {
          stocked = λ d a is. Slot-done (table x d a) (c'.nodes d) a (f'.stocked d a is);
          lives = f'.lives;
          quiet = f'.quiet;
        },
      )

  -- After a put with all four servers up, which had nothing of the file, server d has chunk c exactly if c + x - d is 0 or 1
  -- modulo 4, so that every chunk is on two neighbouring servers.
  pub put_file-placed :
      (x : ℕ) (c : Client server) (live : ℕ → Bool)
      → x < 4
      → UpAll live
      → Stock c no_shelf live
      → (c' : Client server) × (put_file cut filename time x file c ≡ running c')
        × ((d : ℕ) → 1 ≤ d → d ≤ 4 → Shelf laws (part_of (split file)) (c'.nodes d) (placed x d))
  put_file-placed x c live h up f =
      let (c', ran, f') = put_file-Opened no_shelf x c live h up f in
      (c', ran, λ d l u a is. rw (sym (table-eq-placed x d a h l u is)) (f'.stocked d a is))
