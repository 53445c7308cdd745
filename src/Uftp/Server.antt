-- ===== src/Uftp/Server.antt =====
-- The loop of PA1/server/uftp_server-2.c: a request datagram, and what the server does with its
-- files and sends.
use network_systems.Prelude.{
  ℕ, ◌+◌, ◌-◌, Bool, ◌||◌, Option, none, some, List, [], ◌∷◌, ◌++◌, if◌then◌else◌, ltb, length,
  take, drop, replicate,
}
use network_systems.CString.{Bytes, codes, cstr, streq, strtok, strrchr, elem, atoi}
use network_systems.Stream.{bufsize}
use network_systems.Machine.{Result, ok, err, overflow, ◌>>=◌, ◌>>◌, deref, fits}
use network_systems.Web.Reply.{padded}
use network_systems.Uftp.Send.{get_server}
use network_systems.Uftp.Receive.{datagram, put_server, int_size}
pub mod Files

-- The files by the paths that name them.
abbrev pub Files : Type 0
Files = Bytes → Option Bytes

-- What a request finds: whether `remove` succeeds on a path, what "ls -l" prints, the datagrams that
-- come during a put, how many acknowledgements come during a get, the bytes behind the arrays that
-- are sent past their end, fuel for a get, and the bytes behind
-- the variable `clientlen` that nothing else uses.
pub record Scene : Type 0 where
  pub removes : Bytes → Bool
  pub listing : Bytes
  pub later : List Bytes
  pub acks : ℕ
  pub stack : Bytes
  pub fuel : ℕ
  pub spare : ℕ

-- The request in temp_buf: a datagram that fills the buffer with no NUL runs over it.
abbrev pub request_text : Bytes → Result Bytes
request_text buf = if ltb (length buf) bufsize || elem 0 buf then ok (cstr buf) else err overflow

pub record Request : Type 0 where
  pub command : Option Bytes
  pub file_requested : Option Bytes

unfoldable pub split_request : Bytes → Request
split_request text =
    let command = strtok (codes " ") text in
    let file = strtok (codes " ") command.saved in
    record { command = command.token; file_requested = file.token }

abbrev pub behind_slash : Option Bytes → Bytes → Bytes
behind_slash none path = path
behind_slash (some slash) path = drop 1 slash

-- The name behind the last slash, under which a put writes.
abbrev pub base_name : Bytes → Bytes
base_name path = behind_slash (strrchr path b'/') path

abbrev pub find_file : Files → Option Bytes → Option Bytes
find_file files none = none
find_file files (some path) = files path

abbrev pub write_file : Bytes → Bytes → Files → Files
write_file name content files path = if streq path name then some content else files path

abbrev pub remove_file : Bytes → Files → Files
remove_file name files path = if streq path name then none else files path

-- sendto(…, BUFSIZE, …) of an array that is shorter: the text, its NUL, and what stands behind.
abbrev pub over_read : Bytes → Bytes → Bytes
over_read stack text = take bufsize (text ++ 0 ∷ stack)

-- The acknowledgement of each datagram that the loop of a put takes.
unfoldable pub put_acks : ℕ → ℕ → List Bytes → List Bytes
put_acks size received [] = []
put_acks size received (d ∷ ds) =
    let more = put_acks size (received + length (datagram d)) ds in
    if ltb received size then padded (codes "+ACK") ∷ more else []

-- What is sent during a put.
abbrev pub put_replies : List Bytes → List Bytes
put_replies [] = []
put_replies (first ∷ ds) =
    let size = int_size (atoi (cstr (datagram first))) in
    if ltb size bufsize then [] else put_acks size 0 ds

abbrev pub put_done : Bytes
put_done = padded (codes "PUT successful")

-- The first `recvfrom` of a put is given the address of `clientlen`, which has 4 bytes, for the 16
-- bytes of the sender's address. Nothing is written at a timeout.
abbrev pub sender_address : ℕ → List Bytes → Result (List Bytes)
sender_address spare [] = ok []
sender_address spare (first ∷ ds) = if ltb spare 12 then err overflow else ok (first ∷ ds)

-- What a put writes; `none`: the client has told the server to create no file.
abbrev pub create_file :
    List Bytes → Option Bytes → Option (Result Bytes) → Files → Result (List Bytes × Files)
create_file later file none files = ok ([], files)
create_file later file (some received) files = do
  path ← deref file
  content ← received
  ok (put_replies later ++ put_done ∷ [], write_file (base_name path) content files)

-- The branch for "put".
abbrev pub put_branch :
    Scene → Option Bytes → Option (Result Bytes) → Files → Result (List Bytes × Files)
put_branch s file received files = do
  later ← sender_address s.spare s.later
  create_file later file received files

-- The text of a deletion in its array of 100 bytes.
abbrev pub deleted_text : Bytes → Bytes
deleted_text path = take 99 (codes "DELETE " ++ path ++ codes " successful")

-- The branch for "delete". The name behind the slash is put in a variable of an inner block: the
-- whole path is removed.
abbrev pub delete_branch : Scene → Option Bytes → Files → List Bytes × Files
delete_branch s none files = (over_read s.stack (codes "Invalid request!") ∷ [], files)
delete_branch s (some path) files =
    if s.removes path
    then (over_read s.stack (deleted_text path) ∷ [], remove_file path files)
    else (padded (codes "Delete failed, try again and make sure directory is right") ∷ [], files)

-- The branches by the command.
unfoldable pub perform : Scene → Bytes → Option Bytes → Files → Result (List Bytes × Files)
perform s command file files =
    if streq command (codes "get")
    then ok (get_server s.fuel s.acks (find_file files file), files)
    else if streq command (codes "put")
    then put_branch s file (put_server s.later) files
    else if streq command (codes "delete")
    then ok (delete_branch s file files)
    else if streq command (codes "ls")
    then (do full_ls ← fits bufsize (s.listing ++ codes "\n"); ok (padded full_ls ∷ [], files))
    else if streq command (codes "exit")
    then ok (padded (codes "Server acknowledges client exit") ∷ [], files)
    else ok ([], files)

-- One round of the loop.
unfoldable pub serve_datagram : Scene → Bytes → Files → Result (List Bytes × Files)
serve_datagram s d files = do
  text ← request_text (datagram d)
  let r = split_request text
  command ← deref r.command
  perform s command r.file_requested files

-- The rounds over the requests that come: all that is sent, and the files at the end.
unfoldable pub serve_datagrams : List (Scene × Bytes) → Files → Result (List Bytes × Files)
serve_datagrams [] files = ok ([], files)
serve_datagrams ((s, d) ∷ more) files = do
  (replies, files') ← serve_datagram s d files
  (later, files'') ← serve_datagrams more files'
  ok (replies ++ later, files'')
