-- ===== src/Uftp/Send.antt =====
-- The side that sends a file: the server in a get, the client in a put. A file goes as a datagram
-- with its size and then in datagrams of up to BUFSIZE bytes, after each of which the sender waits
-- for an acknowledgement, if the file does not fit into one.
use network_systems.Prelude.{
  ℕ, zero, suc, ◌+◌, ◌-◌, Bool, true, false, Option, none, some, List, [], ◌∷◌, if◌then◌else◌, ltb,
  length, take, drop,
}
use network_systems.CString.{Bytes, codes, decimal}
use network_systems.Stream.{bufsize}

abbrev pub wait_ack : Bool → ℕ → Option ℕ
wait_ack false acks = some acks
wait_ack true zero = none
wait_ack true (suc acks) = some acks

unfoldable pub frame_size : ℕ → ℕ → ℕ
frame_size fsize sent = if ltb bufsize (fsize - sent) then bufsize else fsize - sent

-- The datagrams of the loop. `left` is the file from its position on. The server waits without a
-- timeout and stands still when no more than `acks` acknowledgements come (`blocks`); the client's
-- wait ends after two seconds, and it goes on.
unfoldable pub send_loop : ℕ → Bool → ℕ → ℕ → ℕ → Bytes → List Bytes
send_loop zero blocks acks fsize sent left = []
send_loop (suc fuel) blocks acks fsize sent left =
    let size = frame_size fsize sent in
    let buf = take size left in
    let more : List Bytes = elim (wait_ack blocks acks) [
      | none ↦ []
      | some acks' ↦ send_loop fuel blocks acks' fsize (sent + length buf) (drop size left)
    ] in
    if ltb sent fsize then buf ∷ more else []

-- The size, and the file.
unfoldable pub send_file : ℕ → Bool → ℕ → Bytes → List Bytes
send_file fuel blocks acks file =
    let fsize = length file in
    decimal fsize
    ∷ (if ltb fsize bufsize then file ∷ [] else send_loop fuel blocks acks fsize 0 file)

abbrev pub absent_text : Bytes
absent_text = codes "File does not exist"

abbrev pub refuse_text : Bytes
refuse_text = codes "Don't create this file"

-- The server in a get, and the client in a put; `none`: the file cannot be read.
unfoldable pub get_server : ℕ → ℕ → Option Bytes → List Bytes
get_server fuel acks none = absent_text ∷ []
get_server fuel acks (some file) = send_file fuel true acks file

unfoldable pub put_client : ℕ → Option Bytes → List Bytes
put_client fuel none = refuse_text ∷ []
put_client fuel (some file) = send_file fuel false 0 file
