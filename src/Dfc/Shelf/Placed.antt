-- ===== src/Dfc/Shelf/Placed.antt =====
-- About puts on the shelves: one chunk, the two chunks of one server, and the whole file.
use network_systems.Prelude.{
  ℕ, ◌≤◌, ◌≡◌, ◌≢◌, refl, ap, ◌∙◌, Bool, true, false, arith, if◌then◌else◌, ◌==◌, ==→≡, Bool-cases,
  inl, inr,
}
use network_systems.CString.{Bytes}
use network_systems.Stream.{Segments}
use network_systems.ChunkServer.{ChunkServer, ServerLaws}
use network_systems.Dfc.Network.{Client}
use network_systems.Dfc.Put.{Run, running, send_chunk, send_pair, Parts, ◌then_run◌}
use network_systems.Dfc.Exchange.{IsTransport, IsQuiet, receive-send}
use network_systems.Dfc.Shelf.{
  IsChunk, shelve, OpenShelf, AllSendable, OpenShelf-put, OpenShelf-Takes,
}

-- The shelves after two more chunks on server d, or none, or two on each server in turn.
abbrev pub restock : ℕ → ℕ → ℕ → (ℕ → ℕ → Bool) → ℕ → ℕ → Bool
restock d a b table e c = if e == d then shelve b (shelve a (table d)) c else table e c

abbrev pub no_shelf : ℕ → ℕ → Bool
no_shelf d c = false

-- Two chunks to each server, in the order of the servers.
abbrev pub stock : ℕ × ℕ → ℕ × ℕ → ℕ × ℕ → ℕ × ℕ → ℕ → ℕ → Bool
stock (a₁, b₁) (a₂, b₂) (a₃, b₃) (a₄, b₄) =
    restock 4 a₄ b₄ (restock 3 a₃ b₃ (restock 2 a₂ b₂ (restock 1 a₁ b₁ no_shelf)))

abbrev pub Pair : ℕ × ℕ → Type 0
Pair (a, b) = IsChunk a × IsChunk b × ((b == a) ≡ false)

abbrev pub UpAll : (ℕ → Bool) → Type 0
UpAll live = (d : ℕ) → 1 ≤ d → d ≤ 4 → live d ≡ true

module _ {server : ChunkServer} {filename : Bytes} {time : ℕ}
    (laws : ServerLaws server filename time) (part : ℕ → Bytes) (sendable : AllSendable laws part)
    {cut : Bytes → Segments} (net : IsTransport cut) where
  -- After a put of chunk a to server d.
  record Sent (plan : ℕ → Bool) (c : Client server) (d : ℕ) (has : ℕ → Bool) (c' : Client server)
      : Type 0 where
    shelf : OpenShelf laws part plan (c'.nodes d) has
    others : (e : ℕ) → e ≢ d → c'.nodes e ≡ c.nodes e
    live : c'.live ≡ c.live
    quiet : IsQuiet c'

  send_chunk-Sent :
      (plan : ℕ → Bool) (c : Client server) (d a : ℕ) (has : ℕ → Bool)
      → IsQuiet c
      → IsChunk a
      → has a ≡ false
      → OpenShelf laws part plan (c.nodes d) has
      → (c' : Client server) × (send_chunk cut filename time a (part a) d c ≡ running c')
        × Sent plan c d (shelve a has) c'
  unfolding send_chunk
  send_chunk-Sent plan c d a has quiet is new shelf =
      let takes = OpenShelf-Takes laws part sendable plan (c.nodes d) has a is new shelf in
      let (ack, replied, some_bytes, short) =
        laws.put_ack (c.nodes d) a (part a) (sendable a is) takes in
      let (c', took, done) = receive-send net c d _ ack quiet replied some_bytes short in
      (
        c',
        rw took,
        record {
          shelf =
              rw done.node (OpenShelf-put laws part sendable plan (c.nodes d) has a is new shelf);
          others = done.others;
          live = done.live;
          quiet = done.quiet;
        },
      )

  send_pair-Sent :
      (plan : ℕ → Bool) (c : Client server) (d a b : ℕ) (has : ℕ → Bool)
      → IsQuiet c
      → c.live d ≡ true
      → IsChunk a
      → IsChunk b
      → has a ≡ false
      → shelve a has b ≡ false
      → OpenShelf laws part plan (c.nodes d) has
      → (c' : Client server) × (send_pair cut filename time d a (part a) b (part b) c ≡ running c')
        × Sent plan c d (shelve b (shelve a has)) c'
  unfolding send_pair
  send_pair-Sent plan c d a b has quiet up is_a is_b new_a new_b shelf =
      let (c₁, ran₁, s₁) = send_chunk-Sent plan c d a has quiet is_a new_a shelf in
      let (c₂, ran₂, s₂) =
        send_chunk-Sent plan c₁ d b (shelve a has) s₁.quiet is_b new_b s₁.shelf in
      (
        c₂,
        rw (up, ran₁, ran₂),
        record {
          shelf = s₂.shelf;
          others = λ e h. s₂.others e h ∙ s₁.others e h;
          live = s₂.live ∙ s₁.live;
          quiet = s₂.quiet;
        },
      )

  -- The shelves of all servers, under the plan of each.
  abbrev pub Stocked : (ℕ → ℕ → Bool) → Client server → (ℕ → ℕ → Bool) → Type 0
  Stocked plan c table = (d : ℕ) → OpenShelf laws part (plan d) (c.nodes d) (table d)

  pub record Opened (plan : ℕ → ℕ → Bool) (c : Client server) (table : ℕ → ℕ → Bool)
      (live : ℕ → Bool) : Type 0 where
    pub stocked : Stocked plan c table
    pub lives : c.live ≡ live
    pub quiet : IsQuiet c

  -- Nothing is planned any more.
  abbrev pub Filled : Client server → (ℕ → ℕ → Bool) → (ℕ → Bool) → Type 0
  Filled = Opened no_shelf

  send_pair-Opened :
      (plan : ℕ → ℕ → Bool) (c : Client server) (d a b : ℕ) (table : ℕ → ℕ → Bool) (live : ℕ → Bool)
      → live d ≡ true
      → IsChunk a
      → IsChunk b
      → table d a ≡ false
      → shelve a (table d) b ≡ false
      → Opened plan c table live
      → (c' : Client server) × (send_pair cut filename time d a (part a) b (part b) c ≡ running c')
        × Opened plan c' (restock d a b table) live
  send_pair-Opened plan c d a b table live up is_a is_b new_a new_b f =
      let up' : c.live d ≡ true = ap (λ (l : ℕ → Bool). l d) f.lives ∙ up in
      let (c', ran, s) =
        send_pair-Sent (plan d) c d a b (table d) f.quiet up' is_a is_b new_a new_b (f.stocked d) in
      (
        c',
        ran,
        record {
          stocked = λ e. elim (Bool-cases (e == d)) [
            | inl same ↦ let eq : e ≡ d = ==→≡ e d same in rw (same, eq) s.shelf
            | inr other ↦ let ne : e ≢ d = ground arith in rw (other, s.others e ne) (f.stocked e)
          ];
          lives = s.live ∙ f.lives;
          quiet = s.quiet;
        },
      )

  abbrev pub parts_of : Parts
  parts_of = record { p1 = part b'1'; p2 = part b'2'; p3 = part b'3'; p4 = part b'4' }

  abbrev pub pairs : ℕ × ℕ → ℕ × ℕ → ℕ × ℕ → ℕ × ℕ → Client server → Run server
  pairs (a₁, b₁) (a₂, b₂) (a₃, b₃) (a₄, b₄) c =
      send_pair cut filename time 1 a₁ (part a₁) b₁ (part b₁) c
      then_run send_pair cut filename time 2 a₂ (part a₂) b₂ (part b₂)
      then_run send_pair cut filename time 3 a₃ (part a₃) b₃ (part b₃)
      then_run send_pair cut filename time 4 a₄ (part a₄) b₄ (part b₄)

  pub pairs-Opened :
      (plan : ℕ → ℕ → Bool) (p₁ p₂ p₃ p₄ : ℕ × ℕ) (c : Client server) (live : ℕ → Bool)
      → Pair p₁
      → Pair p₂
      → Pair p₃
      → Pair p₄
      → UpAll live
      → Opened plan c no_shelf live
      → (c' : Client server) × (pairs p₁ p₂ p₃ p₄ c ≡ running c')
        × Opened plan c' (stock p₁ p₂ p₃ p₄) live
  pairs-Opened plan (a₁, b₁) (a₂, b₂) (a₃, b₃) (a₄, b₄) c live q₁ q₂ q₃ q₄ up f =
      let (c₁, ran₁, f₁) =
        send_pair-Opened plan c 1 a₁ b₁ no_shelf live (up 1 (omega arith) (omega arith)) q₁.0 q₁.1
          refl (rw q₁.2) f in
      let (c₂, ran₂, f₂) =
        send_pair-Opened plan c₁ 2 a₂ b₂ _ live (up 2 (omega arith) (omega arith)) q₂.0 q₂.1 refl
          (rw q₂.2) f₁ in
      let (c₃, ran₃, f₃) =
        send_pair-Opened plan c₂ 3 a₃ b₃ _ live (up 3 (omega arith) (omega arith)) q₃.0 q₃.1 refl
          (rw q₃.2) f₂ in
      let (c₄, ran₄, f₄) =
        send_pair-Opened plan c₃ 4 a₄ b₄ _ live (up 4 (omega arith) (omega arith)) q₄.0 q₄.1 refl
          (rw q₄.2) f₃ in
      (c₄, rw (ran₁, ran₂, ran₃, ran₄), f₄)
