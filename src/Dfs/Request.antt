-- ===== src/Dfs/Request.antt =====
-- How `service_request` of PA4/server/dfs.c takes a request apart, with `strtok` and `strstr` over
-- copies of the receive buffer.
pub mod Get
pub mod Put
use network_systems.Prelude.{
  ℕ, ◌+◌, ◌-◌, ◌≡◌, Bool, true, false, ◌&&◌, ◌||◌, not, List, [], ◌∷◌, ◌++◌, Option, none, some,
  if◌then◌else◌, ltb, lt→ltb, ◌<◌, length, drop,
}
pub use network_systems.Machine.{
  Fault, null_pointer, overflow, hang, Result, ok, err, ◌>>=◌, ◌>>◌, deref, fits,
}
use network_systems.CString.{
  Bytes, codes, cstr, streq, elem, strtok, strtok_left, Scan, strstr, contains, ℤ, atoi,
}
use network_systems.Stream.{bufsize}

-- Memory that a round reads and did not write itself: what `temp_buf` and the bytes behind it held
-- before, the bytes behind `buf`, and the stack under `size_buf`.
pub record Memory : Type 0 where
  pub stale : Bytes
  pub beyond : Bytes
  pub stack : Bytes

-- `buf` as a string: zeros follow what was received, unless it fills the array.
unfoldable pub buf_text : Memory → Bytes → Bytes
buf_text m buf = if ltb (length buf) bufsize then cstr buf else cstr (buf ++ m.beyond)

pub buf_text_short : (m : Memory) (buf : Bytes) → length buf < bufsize → buf_text m buf ≡ cstr buf
unfolding buf_text
buf_text_short m buf h = rw (lt→ltb (length buf) bufsize h)

-- `temp_buf` as a string after strncpy(temp_buf, buf, n), with n = length buf.
unfoldable pub temp_text : Memory → Bytes → Bytes
temp_text m buf = if elem 0 buf then cstr buf else buf ++ cstr (drop (length buf) m.stale)

-- strtok(pointer, …), which goes on from the saved place if the pointer is null.
abbrev pub resume : Option Bytes → Bytes → Bytes
resume none saved = saved
resume (some s) saved = s

-- The markers by which a client ends its session.
unfoldable pub is_done : Bytes → Bool
is_done line =
    (streq line (codes "put done") || contains line (codes "put done"))
    || (streq line (codes "get done") || contains line (codes "get done"))
    || (streq line (codes "ls done") || contains line (codes "ls done"))

-- Whether the request is no bare "ls" or "list", and so has header fields.
unfoldable pub has_fields : Bytes → Bool
has_fields line = not (streq line (codes "ls")) && not (streq line (codes "list"))

pub record Header : Type 0 where
  pub command : Option Bytes
  pub filename : Option Bytes
  pub chunk : Option Bytes

abbrev pub crlf : Bytes
crlf = codes "\r\n"

-- The first strtok writes a NUL behind the first word, so both searches of `temp_buf` see only
-- that word, and the later calls of strtok go on from the saved place.
unfoldable pub read_fields : Bytes → Header
read_fields temp =
    let word = strtok (codes " ") temp in
    let left = strtok_left (codes " ") temp in
    let command = strtok crlf word.saved in
    let name_key = strtok (codes " ") (resume (strstr left (codes "Filename: ")) command.saved) in
    let filename = strtok crlf name_key.saved in
    let chunk_key = strtok (codes " ") (resume (strstr left (codes "Chunk: ")) filename.saved) in
    let chunk = strtok crlf chunk_key.saved in
    record { command = command.token; filename = filename.token; chunk = chunk.token }

unfoldable pub read_header : Bytes → Bytes → Header
unfolding has_fields read_fields
read_header line temp =
    if has_fields line
    then read_fields temp
    else record { command = some (codes "ls"); filename = none; chunk = none }

abbrev pub timestamp_size : ℕ
timestamp_size = 255

-- What follows the first blank of a header field.
abbrev pub field_value : Bytes → Bytes → Result Bytes
field_value key line = do
  field ← deref (strstr line key)
  blank ← deref (strstr field (codes " "))
  ok (drop 1 blank)

-- "Size: " and "Timestamp: " of a put. The header is copied to `bruh`, of BUFSIZE bytes, and the
-- timestamp, which ends at its dot, to `timestamp_buf`.
unfoldable pub put_fields : Bytes → Result (ℤ × Bytes)
put_fields line = do
  size ← field_value (codes "Size: ") line
  bruh ← fits bufsize line
  time ← field_value (codes "Timestamp: ") bruh
  timestamp ← fits timestamp_size (strtok_left (codes ".") time)
  ok (atoi size, timestamp)

-- check + 4 - buf, with check = strstr(buf, "\r\n\r\n")
unfoldable pub header_length : Bytes → Result ℕ
header_length line = do
  end ← deref (strstr line (codes "\r\n\r\n"))
  ok (length line - length end + 4)
