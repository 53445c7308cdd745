-- ===== src/Uftp/Loss.antt =====
-- What the receiver of a file makes of a lost datagram.
use network_systems.Prelude.{
  ℕ, ◌+◌, ◌<◌, ◌≤◌, ◌≡◌, ap, refl, List, [], ◌∷◌, arith, ltb, length, length-append, join, take_all,
  lt→ltb, false,
}
use network_systems.CString.{Bytes}
use network_systems.Stream.{bufsize}
use network_systems.Machine.{ok}
use network_systems.Uftp.Receive.{datagram, receive_loop, receive_file}

-- Datagrams with content, each of which fits the buffer.
abbrev pub AllFrames : List Bytes → Type 0
AllFrames [] = Unit
AllFrames (d ∷ ds) = (0 < length d) × (length d ≤ bufsize) × AllFrames ds

receive_loop-join :
    (size received : ℕ) (ds : List Bytes)
    → AllFrames ds
    → received + length (join ds) ≤ size
    → receive_loop size received ds ≡ join ds
unfolding receive_loop
receive_loop-join size received [] frames le = refl
receive_loop-join size received (d ∷ ds) (some_bytes, fits, frames) le =
    let whole : datagram d ≡ d = take_all bufsize d fits in
    let more : received < size = omega (arith, length-append d (join ds)) in
    let rest =
      receive_loop-join size (received + length d) ds frames
        (omega (arith, length-append d (join ds))) in
    rw (lt→ltb received size more, whole, rest)

-- The receiver of a large file takes what comes until the timeout for the file: when some of it is
-- lost the file is what came, put together.
pub receive_file-join :
    (size : ℕ) (ds : List Bytes)
    → AllFrames ds
    → bufsize ≤ size
    → length (join ds) ≤ size
    → receive_file size ds ≡ ok (join ds)
unfolding receive_file
receive_file-join size ds frames large le =
    let loop : ltb size bufsize ≡ false = ground arith in
    rw loop (ap (λ b. ok b) (receive_loop-join size 0 ds frames (omega arith)))
