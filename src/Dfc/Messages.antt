-- ===== src/Dfc/Messages.antt =====
-- The messages of PA4/client/dfc.c: the headers that `send_chunk` and `chunk_query` print.
use network_systems.Prelude.{ℕ, ◌≡◌, ◌≢◌, true, false, [], ◌∷◌, ◌++◌, none}
use network_systems.CString.{Bytes, codes, decimal, avoids, strstr, elem}

-- The end of a put's header, from its timestamp on, with what follows the header. "%f" prints a
-- double that holds a whole number below 2^53, such as a time in microseconds, with six zeros.
abbrev pub time_tail : ℕ → Bytes → Bytes
time_tail time rest = codes "\r\nTimestamp: " ++ (decimal time ++ (codes ".000000\r\n\r\n" ++ rest))

abbrev pub size_tail : ℕ → ℕ → Bytes → Bytes
size_tail size time rest = codes "\r\nSize: " ++ (decimal size ++ time_tail time rest)

abbrev pub chunk_tail : ℕ → Bytes → Bytes
chunk_tail chunk_num rest = codes "\r\nChunk: " ++ (chunk_num ∷ rest)

-- The packet of `send_chunk`: its header with the chunk, `rest`, behind it.
abbrev pub put_packet : Bytes → ℕ → ℕ → ℕ → Bytes → Bytes
put_packet filename chunk_num size time rest =
    codes "Command: put\r\nFilename: "
    ++ (filename ++ chunk_tail chunk_num (size_tail size time rest))

-- The request of `chunk_query`, with the zeros that fill its buffer behind it.
abbrev pub get_packet : Bytes → ℕ → Bytes → Bytes
get_packet filename chunk_num rest =
    codes "Command: get\r\nFilename: "
    ++ (filename ++ chunk_tail chunk_num (codes "\r\n\r\n" ++ rest))

-- A file name that the header can carry: one line, and no text that looks like a later field.
pub record IsPlainName (filename : Bytes) : Type 0 where
  pub ne_nil : filename ≢ []
  pub one_line : avoids (codes "\r\n") filename ≡ true
  pub no_nul : elem 0 filename ≡ false
  pub no_size : strstr filename (codes "Size: ") ≡ none
  pub no_timestamp : strstr filename (codes "Timestamp: ") ≡ none
