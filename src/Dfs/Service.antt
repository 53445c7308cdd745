-- ===== src/Dfs/Service.antt =====
-- `service_request` of PA4/server/dfs.c: one round of its loop, the three commands, and the loop.
pub mod Get
pub mod Size
pub mod Ends
pub mod Breaks
pub mod Put
use network_systems.Prelude.{
  ℕ, zero, suc, ◌+◌, ◌-◌, ◌≡◌, Bool, true, false, ◌&&◌, ◌||◌, not, List, [], ◌∷◌, ◌++◌, Option,
  none, some, if◌then◌else◌, ltb, ◌==◌, length, drop, take,
}
use network_systems.CString.{Bytes, codes, streq, contains, ℤ, pos_part, decimal}
use network_systems.Stream.{Segments, bufsize, recv, read_rest}
use network_systems.Dfs.Files.{Files, Shell, names, lookup, store, newest}
use network_systems.Dfs.Request.{
  Fault, null_pointer, overflow, hang, Result, ok, err, ◌>>=◌, ◌>>◌, deref, fits, Memory, buf_text,
  temp_text, is_done, read_header, Header, put_fields, header_length,
}

-- A server with one connection: its directory's path and entries, whether `opendir` succeeds, the
-- segments that are still to come from the client, and what was sent, the last message last.
pub record Server : Type 0 where
  pub dir : Bytes
  pub files : Files
  pub readable : Bool
  pub inbound : Segments
  pub outbound : List Bytes

-- What a round ends in: the next round, or the end of the thread.
pub data Round : Type 0 where
  again : Server → Round
  closed : Server → Round

-- send(sock, message, …)
abbrev pub send : Bytes → Server → Server
send message s = record s { outbound = s.outbound ++ message ∷ [] }

-- filename-chunk, the pattern of a get
abbrev pub file_chunk : Bytes → Bytes → Bytes
file_chunk filename chunk = filename ++ codes "-" ++ chunk

-- The name of the entry that a put writes, filename-chunk-timestamp.
abbrev pub entry_name : Bytes → Bytes → Bytes → Bytes
entry_name filename chunk timestamp = file_chunk filename chunk ++ codes "-" ++ timestamp

abbrev pub path_of : Bytes → Bytes → Bytes
path_of dir name = dir ++ codes "/" ++ name

-- sizeof("PUT successful"): the NUL is sent too
abbrev pub put_ack : Bytes
put_ack = codes "PUT successful" ++ 0 ∷ []

abbrev pub not_found : Bytes
not_found = codes "Not Found" ++ 0 ∷ []

abbrev pub or_hang {ℓ} : {A : Type ℓ} → Option A → Result A
or_hang none = err hang
or_hang (some a) = ok a

-- The rest of the chunk, with fuel for a round for each byte that is left and one more. Where that
-- is not enough none is (Dfs.Service.Breaks.receive_rest-hang), and the fault stands for the loop
-- that never ends.
abbrev pub receive_rest : ℕ → Segments → Result (Bytes × Segments)
receive_rest left segs = or_hang (read_rest (suc left) left 0 segs)

-- The branch for "put": `payload` is what the first `recv` got behind the header.
unfoldable pub put : Bytes → ℕ → Bytes → Bytes → ℤ → Bytes → Server → Result Server
put buf header filename chunk chunk_size timestamp s = do
  fits bufsize (path_of s.dir (entry_name filename chunk timestamp))
  payload ← if ltb (length buf) header then err overflow else ok (drop header buf)
  (more, inbound) ← receive_rest (pos_part chunk_size - length payload) s.inbound
  let name = entry_name filename chunk timestamp
  let written = record s { files = store name (payload ++ more) s.files; inbound = inbound }
  ok (send put_ack written)

-- The branch for "get", up to the shell's answer.
abbrev pub find_command : Bytes → Bytes → Bytes
find_command dir pattern = codes "ls " ++ dir ++ codes " | grep " ++ pattern ++ codes " | sort -r"

-- size_buf: the number, its NUL, and what the stack held behind it.
unfoldable pub size_message : Memory → ℕ → Bytes
size_message m size = take 1024 (decimal size ++ 0 ∷ m.stack)

-- The file is found: its size, one `recv` for the client's "Ready", its bytes.
unfoldable pub send_file : Memory → Bytes → Server → Server
send_file m content s =
    let sized = send (size_message m (length content)) s in
    send content (record sized { inbound = (recv bufsize sized.inbound).1 })

unfoldable pub get : Shell → Memory → Bytes → Bytes → Server → Result Server
get sh m filename chunk s = do
  fits bufsize (find_command s.dir (file_chunk filename chunk))
  let name = newest sh (file_chunk filename chunk) (names s.files)
  if contains name (file_chunk filename chunk)
      then (do content ← deref (lookup name s.files); ok (send_file m content s))
      else ok (send not_found s)

-- The entries that `readdir` gives.
abbrev pub readdir : Files → List Bytes
readdir files = codes "." ∷ codes ".." ∷ names files

-- The names of the entries, each with a newline, but for "." and "..".
abbrev pub listing : List Bytes → Bytes
listing [] = []
listing (name ∷ rest) =
    let more = listing rest in
    if not (streq name (codes ".")) && not (streq name (codes ".."))
    then name ++ codes "\n" ++ more
    else more

-- The branch for "ls".
unfoldable pub ls : Server → Result Round
ls s =
    if s.readable
    then (do full_ls ← fits bufsize (listing (readdir s.files)); ok (again (send full_ls s)))
    else ok (closed s)

unfoldable pub put_request : Bytes → Bytes → Header → Server → Result Round
unfolding put
put_request buf line h s = do
  (chunk_size, timestamp) ← put_fields line
  header ← header_length line
  filename ← deref h.filename
  chunk ← deref h.chunk
  s' ← put buf header filename chunk chunk_size timestamp s
  ok (again s')

unfoldable pub get_request : Shell → Memory → Header → Server → Result Round
unfolding get
get_request sh m h s = do
  filename ← deref h.filename
  chunk ← deref h.chunk
  s' ← get sh m filename chunk s
  ok (again s')

-- The branches by the command. "PUT" has its fields read, and is then no command that the server
-- knows.
unfoldable pub perform : Shell → Memory → Bytes → Bytes → Header → Server → Result Round
unfolding put_request get_request
perform sh m buf line h s = do
  command ← deref h.command
  if streq command (codes "put")
      then put_request buf line h s
      else if streq command (codes "PUT")
      then (do fields ← put_fields line; ok (again s))
      else if streq command (codes "get")
      then get_request sh m h s
      else if streq command (codes "ls")
      then ls s
      else ok (again s)

-- One round of the loop: a request, the end of the stream, or a marker that ends the session.
unfoldable pub round : Shell → Memory → Server → Result Round
round sh m s =
    let (buf, inbound) = recv bufsize s.inbound in
    let s' = record s { inbound = inbound } in
    let line = buf_text m buf in
    if length buf == 0
    then ok (closed s)
    else if is_done line
    then ok (closed s')
    else perform sh m buf line (read_header line (temp_text m buf)) s'

-- The thread: rounds until one closes the connection or breaks. `none` when the fuel runs out.
unfoldable pub service_request : ℕ → Shell → (ℕ → Memory) → Server → Option (Result Server)
service_request zero sh memory s = none
service_request (suc fuel) sh memory s = elim (round sh (memory fuel) s) [
  | ok (again s') ↦ service_request fuel sh memory s'
  | ok (closed s') ↦ some (ok s')
  | err fault ↦ some (err fault)
]
