-- ===== src/Dfc/Exchange.antt =====
-- One message and its reply over a quiet connection.
use network_systems.Prelude.{
  ℕ, ◌≤◌, ◌<◌, ◌≡◌, ◌≢◌, refl, ap, ◌∙◌, false, some, [], ◌∷◌, ◌++◌, arith, ◌==◌, ==_refl,
  Bool-cases, inl, inr, length, join,
}
use network_systems.CString.{Bytes}
use network_systems.Stream.{Segments, bufsize}
use network_systems.Stream.Laws.{AllFull, recv_first}
use network_systems.ChunkServer.{ChunkServer}
use network_systems.Dfc.Network.{Client, send, receive, update, arrived, received, delivered}

-- TCP as the client relies on it: nothing is lost or made up, and a short message comes whole.
pub record IsTransport (cut : Bytes → Segments) : Type 0 where
  pub joins : (b : Bytes) → join (cut b) ≡ b
  pub full : (b : Bytes) → AllFull (cut b)
  pub whole : (b : Bytes) → 0 < length b → length b ≤ 1024 → cut b ≡ b ∷ []

-- No reply is under way.
abbrev pub IsQuiet : {server : ChunkServer} → Client server → Type 0
IsQuiet c = (d : ℕ) → c.streams d ≡ []

pub update_self {ℓ} : {A : Type ℓ} (f : ℕ → A) (i : ℕ) (v : A) → update f i v i ≡ v
update_self f i v = rw ==_refl

pub update_other {ℓ} :
    {A : Type ℓ} (f : ℕ → A) (i : ℕ) (v : A) (j : ℕ) → j ≢ i → update f i v j ≡ f j
update_other f i v j h = let e : (j == i) ≡ false = ground arith in rw e

module _ {server : ChunkServer} {cut : Bytes → Segments} (net : IsTransport cut) where
  -- The client after a message to server d whose reply was received whole.
  pub record Exchanged (c : Client server) (d : ℕ) (message : Bytes) (c' : Client server)
      : Type 0 where
    pub node : c'.nodes d ≡ (server.exchange message (c.nodes d)).1
    pub others : (e : ℕ) → e ≢ d → c'.nodes e ≡ c.nodes e
    pub live : c'.live ≡ c.live
    pub quiet : IsQuiet c'

  pub receive-send_within :
      (size : ℕ) (c : Client server) (d : ℕ) (message reply : Bytes)
      → IsQuiet c
      → (server.exchange message (c.nodes d)).0 ≡ some reply
      → 0 < length reply
      → length reply ≤ 1024
      → length reply ≤ size
      → (c' : Client server) × (receive size d (send cut d message c) ≡ some (reply, c'))
        × Exchanged c d message c'
  unfolding send receive
  receive-send_within size c d message reply quiet replied some_bytes short room = (
    c',
    took,
    record {
      node = update_self c.nodes d node;
      others = λ e h. update_other c.nodes d node e h;
      live = refl;
      quiet =
          λ e. elim (Bool-cases (e == d)) [ inl same ↦ rw same | inr other ↦ rw other (quiet e) ];
    },
  )
    where
      node : server.State
      node = (server.exchange message (c.nodes d)).1

      c' : Client server
      c' = record (send cut d message c) { streams = update (send cut d message c).streams d [] }

      stream : (send cut d message c).streams d ≡ reply ∷ []
      stream =
          update_self c.streams d
            (c.streams d ++ arrived cut (server.exchange message (c.nodes d)).0)
          ∙ rw (quiet d, replied) (net.whole reply some_bytes short)

      took : receive size d (send cut d message c) ≡ some (reply, c')
      took =
          ap (λ s. delivered d (send cut d message c) (received (c.closed d) size s)) stream
          ∙ ap (λ r. delivered d (send cut d message c) (some r)) (recv_first size reply [] room)

  pub receive-send :
      (c : Client server) (d : ℕ) (message reply : Bytes)
      → IsQuiet c
      → (server.exchange message (c.nodes d)).0 ≡ some reply
      → 0 < length reply
      → length reply ≤ 1024
      → (c' : Client server) × (receive bufsize d (send cut d message c) ≡ some (reply, c'))
        × Exchanged c d message c'
  receive-send c d message reply quiet replied some_bytes short =
      receive-send_within bufsize c d message reply quiet replied some_bytes short (omega arith)
