-- ===== src/Uftp/Receive.antt =====
-- The side that receives a file: the client in a get, the server in a put, over the datagrams that
-- arrive. After the last of them `recvfrom` ends in a timeout.
use network_systems.Prelude.{
  ℕ, ◌+◌, ◌-◌, ◌%◌, ◌^◌, min, Option, none, some, List, [], ◌∷◌, ◌++◌, if◌then◌else◌, ltb, length,
  take,
}
use network_systems.CString.{Bytes, ℤ, pos, negsuc, cstr, streq, atoi, pos_part}
use network_systems.Stream.{bufsize}
use network_systems.Machine.{Result, ok, err, overflow}
use network_systems.Uftp.Send.{absent_text, refuse_text}

-- recvfrom(sockfd, buf, BUFSIZE, 0, …) cuts what does not fit.
abbrev pub datagram : Bytes → Bytes
datagram d = take bufsize d

-- The loop: a timeout leaves it, and the file has what came until then.
unfoldable pub receive_loop : ℕ → ℕ → List Bytes → Bytes
receive_loop size received [] = []
receive_loop size received (d ∷ ds) =
    let more = receive_loop size (received + length (datagram d)) ds in
    if ltb received size then datagram d ++ more else []

-- The file, once the size is known. For a small file the one `recvfrom` is not tested: at a
-- timeout fwrite is called with the length -1.
unfoldable pub receive_file : ℕ → List Bytes → Result Bytes
receive_file size ds =
    if ltb size bufsize
    then elim ds [ [] ↦ err overflow | d ∷ rest ↦ ok (datagram d) ]
    else ok (receive_loop size 0 ds)

-- strtol's long, put in the server's int: the low 32 bits, of which the upper half is negative, and
-- then every byte count is above it.
abbrev pub low_word : ℕ → ℕ
low_word n = if ltb (n % 2 ^ 32) (2 ^ 31) then n % 2 ^ 32 else 0

abbrev pub int_size : ℤ → ℕ
int_size (pos n) = low_word (min n (2 ^ 63 - 1))
int_size (negsuc n) = low_word (2 ^ 64 - 1 - min n (2 ^ 63 - 1))

-- What is written, if a file is opened at all: not at a timeout, nor when the sender has no file.
abbrev pub opened : (ℤ → ℕ) → Bytes → List Bytes → Option (Result Bytes)
opened to_size refusal [] = none
opened to_size refusal (first ∷ ds) =
    let text = cstr (datagram first) in
    if streq text refusal then none else some (receive_file (to_size (atoi text)) ds)

unfoldable pub get_client : List Bytes → Option (Result Bytes)
get_client ds = opened pos_part absent_text ds

-- The server's first `recvfrom` is not tested: at a timeout its buffer is the empty string.
unfoldable pub put_server : List Bytes → Option (Result Bytes)
put_server [] = some (receive_file 0 [])
put_server (first ∷ ds) = opened int_size refuse_text (first ∷ ds)
