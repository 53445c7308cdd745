-- ===== src/Dfc/Shelf.antt =====
-- What the servers hold of one file while a put places its chunks: each server has a shelf, which
-- says of every chunk's digit whether the server has the chunk or lacks it. While a put replaces an
-- older version, a chunk of the server's plan may still be there in that version.
pub mod Placed
pub mod Fetched
pub mod Found
use network_systems.Prelude.{
  ℕ, ◌≤◌, ◌<◌, ◌≡◌, ◌≢◌, refl, sym, ap, ◌∙◌, Bool, true, false, Option, none, some, List, [], ◌∷◌,
  ◌++◌, arith, if◌then◌else◌, ◌==◌, ==→≡, Bool-cases, inl, inr, length,
}
use network_systems.CString.{Bytes}
use network_systems.Stream.{Segments, bufsize}
use network_systems.ChunkServer.{ChunkServer, ServerLaws, put_chunk}
use network_systems.Dfc.Messages.{put_packet}
use network_systems.Dfc.Network.{Client, send, receive}
use network_systems.Dfc.Put.{Run, running, send_chunk, send_pair}
use network_systems.Dfc.Exchange.{IsTransport, IsQuiet, Exchanged, receive-send}

abbrev pub IsChunk : ℕ → Type 0
IsChunk c = (b'1' ≤ c) × (c ≤ b'4')

-- A shelf with one more chunk.
abbrev pub shelve : ℕ → (ℕ → Bool) → ℕ → Bool
shelve a has c = if c == a then true else has c

module _ {server : ChunkServer} {filename : Bytes} {time : ℕ}
    (laws : ServerLaws server filename time) (part : ℕ → Bytes) where
  -- Whether the chunk was put, and whether it is planned to be.
  abbrev pub OpenSlot : Bool → Bool → server.State → ℕ → Type 0
  OpenSlot true p s c = laws.Holds s c (part c)
  OpenSlot false true s c = laws.Takes s c
  OpenSlot false false s c = laws.Lacks s c

  abbrev pub OpenShelf : (ℕ → Bool) → server.State → (ℕ → Bool) → Type 0
  OpenShelf plan s has = (c : ℕ) → IsChunk c → OpenSlot (has c) (plan c) s c

  abbrev pub Slot : Bool → server.State → ℕ → Type 0
  Slot b s c = OpenSlot b false s c

  abbrev pub Shelf : server.State → (ℕ → Bool) → Type 0
  Shelf s has = (c : ℕ) → IsChunk c → Slot (has c) s c

  -- Every chunk of the file can be sent.
  abbrev pub AllSendable : Type 0
  AllSendable = (c : ℕ) → IsChunk c → laws.IsSendable c (part c)

  module _ (sendable : AllSendable) where
    OpenSlot-put :
        (b p : Bool) (s : server.State) (a c : ℕ)
        → IsChunk a
        → laws.Takes s a
        → a ≢ c
        → OpenSlot b p s c
        → OpenSlot b p (put_chunk server filename time a (part a) s).1 c
    OpenSlot-put true p s a c is takes ne slot =
        laws.put_keeps_Holds s a (part a) c (part c) (sendable a is) ne takes slot
    OpenSlot-put false true s a c is takes ne slot =
        laws.put_keeps_Takes s a (part a) c (sendable a is) ne takes slot
    OpenSlot-put false false s a c is takes ne slot =
        laws.put_keeps_Lacks s a (part a) c (sendable a is) ne takes slot

    OpenSlot-Takes : (p : Bool) (s : server.State) (c : ℕ) → OpenSlot false p s c → laws.Takes s c
    OpenSlot-Takes true s c h = h
    OpenSlot-Takes false s c h = laws.Lacks-Takes s c h

    pub OpenShelf-Takes :
        (plan : ℕ → Bool) (s : server.State) (has : ℕ → Bool) (a : ℕ)
        → IsChunk a
        → has a ≡ false
        → OpenShelf plan s has
        → laws.Takes s a
    OpenShelf-Takes plan s has a is new shelf = OpenSlot-Takes (plan a) s a (rw new at (shelf a is))

    pub OpenShelf-put :
        (plan : ℕ → Bool) (s : server.State) (has : ℕ → Bool) (a : ℕ)
        → IsChunk a
        → has a ≡ false
        → OpenShelf plan s has
        → OpenShelf plan (put_chunk server filename time a (part a) s).1 (shelve a has)
    OpenShelf-put plan s has a is new shelf c chunk = elim (Bool-cases (c == a)) [
      | inl same ↦
          let e : c ≡ a = ==→≡ c a same in
          rw same (rw e (laws.put_Holds s a (part a) (sendable a is) takes))
      | inr other ↦
          let ne : a ≢ c = ground arith in
          rw other (OpenSlot-put (has c) (plan c) s a c is takes ne (shelf c chunk))
    ]
      where
        takes : laws.Takes s a
        takes = OpenShelf-Takes plan s has a is new shelf
