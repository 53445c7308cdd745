-- ===== src/ChunkServer.antt =====
-- The interface between the client and the servers of the distributed file system, PA4: what a
-- client sees of one server, and the laws by which it reasons about what the server keeps.
use network_systems.Prelude.{
  ℕ, ◌-◌, ◌≤◌, replicate, ◌<◌, ◌≡◌, ◌≢◌, false, Option, some, [], ◌∷◌, ◌++◌, length,
}
use network_systems.CString.{Bytes, codes, cstr, atoi, pos, streq}
use network_systems.Stream.{bufsize}
use network_systems.Dfc.Messages.{put_packet, get_packet}

-- A server and its connection: a new connection, and one message with the reply that comes back,
-- if one does.
pub record ChunkServer : Type 1 where
  pub State : Type 0
  pub connect : State → State
  pub exchange : Bytes → State → Option Bytes × State

-- The message of `chunk_query`: its request in a buffer of BUFSIZE bytes that zeros fill.
abbrev pub get_message : Bytes → ℕ → Bytes
get_message filename c =
    get_packet filename c (replicate (bufsize - length (get_packet filename c [])) 0)

abbrev pub ready : Bytes
ready = codes "Ready"

abbrev pub not_found_text : Bytes
not_found_text = codes "Not Found"

module _ (server : ChunkServer) (filename : Bytes) (time : ℕ) where
  open server use {State, connect, exchange}

  abbrev pub put_chunk : ℕ → Bytes → State → Option Bytes × State
  put_chunk c chunk = exchange (put_packet filename c (length chunk) time chunk)

  -- For the chunks of one file, under the digits that name them: `IsSendable c chunk` says that the
  -- chunk can be put and fetched again; `Holds` and `Lacks` that a connected server that waits for
  -- a request has the chunk, with this content, or has nothing under its name; `Takes` that what it
  -- has under the chunk's name, if anything, was put before `time`.
  pub record ServerLaws : Type 1 where
    pub IsSendable : ℕ → Bytes → Type 0
    pub Holds : State → ℕ → Bytes → Type 0
    pub Lacks : State → ℕ → Type 0
    pub Takes : State → ℕ → Type 0
    pub Lacks-Takes : (s : State) (c : ℕ) → Lacks s c → Takes s c
    -- a put is acknowledged, the server then has the chunk, and nothing else has changed
    pub put_ack :
        (s : State) (c : ℕ) (chunk : Bytes)
        → IsSendable c chunk
        → Takes s c
        → (ack : Bytes) × ((put_chunk c chunk s).0 ≡ some ack)
          × (0 < length ack)
          × (length ack ≤ 1024)
    pub put_Holds :
        (s : State) (c : ℕ) (chunk : Bytes)
        → IsSendable c chunk
        → Takes s c
        → Holds (put_chunk c chunk s).1 c chunk
    pub put_keeps_Holds :
        (s : State) (c : ℕ) (chunk : Bytes) (d : ℕ) (other : Bytes)
        → IsSendable c chunk
        → c ≢ d
        → Takes s c
        → Holds s d other
        → Holds (put_chunk c chunk s).1 d other
    pub put_keeps_Lacks :
        (s : State) (c : ℕ) (chunk : Bytes) (d : ℕ)
        → IsSendable c chunk
        → c ≢ d
        → Takes s c
        → Lacks s d
        → Lacks (put_chunk c chunk s).1 d
    pub put_keeps_Takes :
        (s : State) (c : ℕ) (chunk : Bytes) (d : ℕ)
        → IsSendable c chunk
        → c ≢ d
        → Takes s c
        → Takes s d
        → Takes (put_chunk c chunk s).1 d
    -- a query for a chunk that the server has: its size, and after "Ready" its bytes
    pub query_held :
        (s : State) (c : ℕ) (chunk : Bytes)
        → IsSendable c chunk
        → Holds s c chunk
        → (reply : Bytes) × ((exchange (get_message filename c) s).0 ≡ some reply)
          × (0 < length reply)
          × (length reply ≤ 1024)
          × (streq (cstr reply) not_found_text ≡ false)
          × (atoi (cstr reply) ≡ pos (length chunk))
          × ((exchange ready (exchange (get_message filename c) s).1).0 ≡ some chunk)
    pub held_keeps :
        (s : State) (c : ℕ) (chunk : Bytes)
        → IsSendable c chunk
        → Holds s c chunk
        → ((d : ℕ) (other : Bytes)
            → Holds s d other
            → Holds (exchange ready (exchange (get_message filename c) s).1).1 d other)
          × ((d : ℕ)
              → Lacks s d
              → Lacks (exchange ready (exchange (get_message filename c) s).1).1 d)
    -- a query for a chunk that the server does not have
    pub query_lacks :
        (s : State) (c : ℕ) (chunk : Bytes)
        → IsSendable c chunk
        → Lacks s c
        → ((exchange (get_message filename c) s).0 ≡ some (not_found_text ++ 0 ∷ []))
          × ((d : ℕ) (other : Bytes)
              → Holds s d other
              → Holds (exchange (get_message filename c) s).1 d other)
          × ((d : ℕ) → Lacks s d → Lacks (exchange (get_message filename c) s).1 d)
    -- a new connection finds the same files
    pub connect_Holds :
        (s : State) (c : ℕ) (chunk : Bytes) → Holds s c chunk → Holds (connect s) c chunk
    pub connect_Lacks : (s : State) (c : ℕ) → Lacks s c → Lacks (connect s) c
