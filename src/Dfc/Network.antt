-- ===== src/Dfc/Network.antt =====
-- The sockets of PA4/client/dfc.c: `socket_array` and `live_servers`, with the four servers behind
-- them. The number of a server is its DFS number, from 1.
use network_systems.Prelude.{ℕ, Bool, Option, none, some, [], ◌∷◌, ◌++◌, if◌then◌else◌, ◌==◌}
use network_systems.CString.{Bytes}
use network_systems.Stream.{Segments, recv}
use network_systems.ChunkServer.{ChunkServer}

abbrev pub update {ℓ} : {A : Type ℓ} → (ℕ → A) → ℕ → A → ℕ → A
update f i v j = if j == i then v else f j

-- The servers, the replies that are on their way on each socket, whether the server has closed its
-- end behind them, and live_servers[i - 1] == 1.
pub record Client (server : ChunkServer) : Type 0 where
  pub nodes : ℕ → server.State
  pub streams : ℕ → Segments
  pub closed : ℕ → Bool
  pub live : ℕ → Bool

-- A reply as the network delivers it.
abbrev pub arrived : (Bytes → Segments) → Option Bytes → Segments
arrived cut none = []
arrived cut (some reply) = cut reply

-- What `recv` gives: what has come, or 0 bytes when the server has closed its end. Nothing within
-- the timeout is `none`, for n < 0.
abbrev pub received : Bool → ℕ → Segments → Option (Bytes × Segments)
received closed size [] = if closed then some ([], []) else none
received closed size (s ∷ rest) = some (recv size (s ∷ rest))

module _ {server : ChunkServer} (cut : Bytes → Segments) where
  -- send(socket_array[d - 1], message, …); the reply, cut by the network, comes onto the stream.
  unfoldable pub send : ℕ → Bytes → Client server → Client server
  send d message c =
      let (reply, node) = server.exchange message (c.nodes d) in
      record c {
        nodes = update c.nodes d node;
        streams = update c.streams d (c.streams d ++ arrived cut reply);
      }

module _ {server : ChunkServer} where
  abbrev pub delivered :
      ℕ → Client server → Option (Bytes × Segments) → Option (Bytes × Client server)
  delivered d c none = none
  delivered d c (some (buf, rest)) = some (buf, record c { streams = update c.streams d rest })

  -- recv(socket_array[d - 1], buf, size, 0)
  unfoldable pub receive : ℕ → ℕ → Client server → Option (Bytes × Client server)
  receive size d c = delivered d c (received (c.closed d) size (c.streams d))
