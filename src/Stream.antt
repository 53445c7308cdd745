-- ===== src/Stream.antt =====
-- A TCP connection as its reader sees it: the segments that are still to come, cut anywhere by the
-- network. `recv` gives the next one, or the part of it that fits, and nothing at the end of the
-- stream. `read_rest` is the loop in PA4/server/dfs.c that reads the rest of a chunk.

pub mod Laws
pub mod Left
use network_systems.Prelude.{
  ℕ, zero, suc, ◌+◌, ◌-◌, List, [], ◌∷◌, ◌++◌, Option, none, some, ltb, leb, if◌then◌else◌, length,
  take, drop,
}
use network_systems.CString.{Bytes}

abbrev pub bufsize : ℕ
bufsize = 8192

abbrev pub Segments : Type 0
Segments = List Bytes

-- recv(sock, buf, size, 0)
unfoldable pub recv : ℕ → Segments → Bytes × Segments
recv size [] = ([], [])
recv size (s ∷ rest) = if leb (length s) size then (s, rest) else (take size s, drop size s ∷ rest)

unfoldable pub receive_size : ℕ → ℕ → ℕ
receive_size left total = if ltb (left - total) bufsize then left - total else bufsize

abbrev pub prepend : Bytes → Option (Bytes × Segments) → Option (Bytes × Segments)
prepend buf none = none
prepend buf (some (more, segs)) = some (buf ++ more, segs)

-- The bytes that the loop writes to the file, and the segments that it leaves; `none` when the
-- fuel runs out. At the end of the stream `recv` gives 0 bytes and the loop makes no progress.
unfoldable pub read_rest : ℕ → ℕ → ℕ → Segments → Option (Bytes × Segments)
read_rest zero left total segs = none
read_rest (suc fuel) left total segs =
    let (buf, segs') = recv (receive_size left total) segs in
    let more = prepend buf (read_rest fuel left (total + length buf) segs') in
    if ltb total left then more else some ([], segs)
