-- ===== src/Proxy/World.antt =====
-- What a process of PA3/proxy.c has around it: the cache directory, its client, the Internet, and
-- the files and flags that it reads.
use network_systems.Prelude.{
  ℕ, ◌-◌, Bool, true, false, ◌||◌, Option, none, some, List, [], ◌∷◌, ◌==◌, ltb, length, take,
  if◌then◌else◌, ◌++◌,
}
use network_systems.CString.{Bytes, cstr, streq}
use network_systems.Stream.{Segments, bufsize}
use network_systems.Machine.{Result, ok, err, overflow}
use network_systems.Web.Reply.{Connection}

-- A file below cache/, and the second of its last change.
pub record Entry : Type 0 where
  pub content : Bytes
  pub modified : ℕ

-- A request to an origin server: the host that the client named, the address and port that the
-- proxy connected to, and the text it sent there.
pub record Ask : Type 0 where
  pub host : Bytes
  pub address : Bytes
  pub port : ℕ
  pub text : Bytes

pub record World : Type 0 where
  pub cache : Bytes → Option Entry
  pub client : Connection
  pub asked : List Ask

-- `gethostbyname`, as the text of the first address; and `connect`, with the segments that the
-- server answers to a request.
pub record Internet : Type 0 where
  pub resolve : Bytes → Option Bytes
  pub connect : Bytes → ℕ → Option (Bytes → Segments)

-- What does not change: the argument `timeout` in seconds, the file ./blocklist, and, for an array
-- whose size is computed at run time, the bytes behind it that nothing else uses.
pub record Config : Type 0 where
  pub timeout : ℕ
  pub blocklist : Option Bytes
  pub slack : ℕ → ℕ

-- What one request finds: the Internet, the time, the global `check`, and the memory behind the
-- array that the process receives into.
pub record Scene : Type 0 where
  pub net : Internet
  pub now : ℕ
  pub running : Bool
  pub beyond : Bytes

-- A buffer of BUFSIZE bytes as a string: zeros follow what was received, unless it fills the array.
abbrev pub text_of : Bytes → Bytes → Bytes
text_of beyond buf = if ltb (length buf) bufsize then cstr buf else cstr (buf ++ beyond)

abbrev pub join_first : ℕ → List Bytes → List Bytes
join_first c [] = (c ∷ []) ∷ []
join_first c (line ∷ lines) = (c ∷ line) ∷ lines

-- while (fgets(hostname, 254, bl)): lines with their newline, in pieces of at most 253 bytes.
-- `room` is what is left of the array.
unfoldable pub fgets_lines : ℕ → Bytes → List Bytes
fgets_lines room [] = []
fgets_lines room (c ∷ s) =
    let next = fgets_lines 253 s in
    let same = fgets_lines (room - 1) s in
    if c == 10 || room == 1 then (c ∷ []) ∷ next else join_first c same

-- hostname[strlen(hostname) - 1] = '\0', which is outside of an empty string; then the name is
-- compared with the address and with the host.
unfoldable pub is_listed : Bytes → Bytes → List Bytes → Result Bool
is_listed ip hostname [] = ok false
is_listed ip hostname (line ∷ lines) =
    let more = is_listed ip hostname lines in
    let name = take (length (cstr line) - 1) (cstr line) in
    if streq (take 1 line) (10 ∷ [])
    then more
    else if length (cstr line) == 0
    then err overflow
    else if streq ip name || streq hostname name
    then ok true
    else more

-- The search through the blocklist, if there is one.
unfoldable pub is_blocked : Option Bytes → Bytes → Bytes → Result Bool
is_blocked none ip hostname = ok false
is_blocked (some bl) ip hostname = is_listed ip hostname (fgets_lines 253 bl)
