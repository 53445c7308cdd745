-- ===== src/Dfc/Config.antt =====
-- The start of main in PA4/client/dfc.c: the lines of dfc.conf, and dfs_connect for each server.
pub mod Servers
use network_systems.Prelude.{
  ℕ, zero, suc, ◌-◌, ◌%◌, ◌^◌, Bool, Option, none, some, List, [], ◌∷◌, ◌++◌, ◌==◌, if◌then◌else◌,
  length, take, drop,
}
use network_systems.CString.{
  Bytes, ℤ, pos, negsuc, codes, cstr, strchr, strrchr, strtok, strtok_left, atoi,
}
use network_systems.Machine.{Result, ok, err, overflow, null_pointer, deref, fits, ◌>>=◌}

-- What gethostbyname finds, and whether a connection to the address and the port is accepted.
pub record Net : Type 0 where
  pub hosts : Bytes → Option Bytes
  pub accepts : Bytes → ℕ → Bool

-- htons(port): the low 16 bits of an int.
abbrev pub port_bits : ℤ → ℕ
port_bits (pos n) = n % 2 ^ 16
port_bits (negsuc n) = 2 ^ 16 - 1 - n % 2 ^ 16

-- `none`: there is no such host, and the client ends.
unfoldable pub dfs_connect : Net → ℤ → Bytes → Option Bool
dfs_connect net port hostname = elim (net.hosts hostname) [
  | none ↦ none
  | some address ↦ some (net.accepts address (port_bits port))
]

abbrev pub first_line : Bytes → Bytes
first_line [] = []
first_line (c ∷ s) = if c == b'\n' then c ∷ [] else c ∷ first_line s

abbrev pub later_lines : Bytes → Bytes
later_lines [] = []
later_lines (c ∷ s) = if c == b'\n' then s else later_lines s

-- getline(&line, &len, conf_fd): the line and the rest of the file. At its end the buffer stays
-- as it is.
unfoldable pub getline : Bytes → Bytes → Bytes × Bytes
getline line [] = (line, [])
getline line (c ∷ s) = (first_line (c ∷ s), later_lines (c ∷ s))

-- line[strlen(line) - 1] = '\0'
abbrev pub drop_newline : Bytes → Result Bytes
drop_newline [] = err overflow
drop_newline (c ∷ s) = ok (take (length (c ∷ s) - 1) (c ∷ s))

-- The host and the port of a line, and the string that is left in the line's buffer.
unfoldable pub conf_line : Bytes → Result (Bytes × ℤ × Bytes)
conf_line buffer = do
  line ← drop_newline (cstr buffer)
  temp_line ← fits 255 line
  blank ← deref (strrchr line b' ')
  let dfs_host = drop 1 blank
  host ← deref (strtok (codes ":") dfs_host).token
  colon ← deref (strchr temp_line b':')
  let before = take (length line - length dfs_host) line
  ok (host, atoi (drop 1 colon), before ++ strtok_left (codes ":") dfs_host)

-- live_servers[server_num] = up
abbrev pub with_status : Bool → Option (List Bool) → Option (List Bool)
with_status up none = none
with_status up (some more) = some (up ∷ more)

-- The result of `dfs_connect`, and the rounds that come behind it.
abbrev pub counted : Option Bool → Result (Option (List Bool)) → Result (Option (List Bool))
counted none rounds = ok none
counted (some up) rounds = rounds >>= λ more. ok (with_status up more)

abbrev pub connected :
    Net → (Bytes → Result (Option (List Bool))) → Bytes × ℤ × Bytes → Result (Option (List Bool))
connected net rounds (host, port, left) = counted (dfs_connect net port host) (rounds left)

-- The loop over the servers; `none` when the client ends for a host that is not found.
unfoldable pub connect_servers : Net → ℕ → Bytes → Bytes → Result (Option (List Bool))
connect_servers net zero line conf = ok (some [])
connect_servers net (suc n) line conf =
    let (next, rest) = getline line conf in
    conf_line next >>= connected net (λ left. connect_servers net n left rest)

-- Four servers. A file that is not there is a null pointer to fseek; `heap` is what getline finds
-- in the buffer that it makes for the first line.
unfoldable pub read_conf : Net → Bytes → Option Bytes → Result (Option (List Bool))
read_conf net heap none = err null_pointer
read_conf net heap (some conf) = connect_servers net 4 heap conf
