-- ===== src/Dfs/Request/Put.antt =====
-- What the server reads from the header of a put.
use network_systems.Prelude.{
  ℕ, ◌+◌, ◌≡◌, ◌<◌, refl, [], ◌∷◌, ◌++◌, true, false, some, arith, length, length-append, ◌∙◌, ap,
  lt→ltb, Bool-cases, inl, inr, append_assoc, drop, drop-append,
}
use network_systems.CString.{
  cstr, cstr-append, Bytes, codes, strstr, atoi, strtok_left, strtok_token, strtok_left_token,
  avoids_single, elem-avoids, strstr_skip, strstr_skip_first, decimal, elem, is_digit, elem-decimal,
  atoi-decimal, decimal-ne-nil, pos,
}
use network_systems.Stream.{bufsize}
use network_systems.Dfc.Messages.{put_packet, chunk_tail, size_tail, time_tail, IsPlainName}
use network_systems.Dfs.Request.{
  read_fields, put_fields, header_length, ok, timestamp_size, Memory, temp_text, read_header,
}

-- The fields of a put, whatever stands behind its header.
pub read_fields-put_packet :
    (filename : Bytes) (c size t : ℕ) (rest : Bytes)
    → IsPlainName filename
    → is_digit c ≡ true
    → read_fields (put_packet filename c size t rest)
      ≡ record { command = some (codes "put"); filename = some filename; chunk = some (c ∷ []) }
unfolding read_fields
read_fields-put_packet filename c size t rest n d =
    rw
      (strtok_token (codes "\r\n") filename b'\r' (codes "\nChunk: " ++ (c ∷ size_tail size t rest))
        n.ne_nil n.one_line refl)
      (ground arith)

no_cr : {filename : Bytes} → IsPlainName filename → elem b'\r' filename ≡ false
no_cr {filename} n = elem-avoids b'\r' (codes "\r\n") filename n.one_line refl

digit_ne : (d c : ℕ) → is_digit c ≡ true → is_digit d ≡ false → elem d (c ∷ []) ≡ false
digit_ne d c h k = ground arith

module _ (filename : Bytes) (c size t : ℕ) (rest : Bytes) (n : IsPlainName filename)
    (d : is_digit c ≡ true) where
  size_found :
      strstr (put_packet filename c size t rest) (codes "Size: ")
      ≡ some (codes "Size: " ++ (decimal size ++ time_tail t rest))
  size_found =
      strstr_skip filename b'\r' (codes "\nChunk: " ++ (c ∷ size_tail size t rest)) (codes "Size: ")
        refl n.no_size
      ∙ strstr_skip_first (c ∷ []) (size_tail size t rest) b'S' (codes "ize: ")
          (digit_ne b'S' c d refl)

  time_found :
      strstr (put_packet filename c size t rest) (codes "Timestamp: ")
      ≡ some (codes "Timestamp: " ++ (decimal t ++ (codes ".000000\r\n\r\n" ++ rest)))
  time_found =
      strstr_skip filename b'\r' (codes "\nChunk: " ++ (c ∷ size_tail size t rest))
        (codes "Timestamp: ") refl n.no_timestamp
      ∙ strstr_skip_first (c ∷ []) (size_tail size t rest) b'T' (codes "imestamp: ")
          (digit_ne b'T' c d refl)
      ∙ strstr_skip_first (decimal size) (time_tail t rest) b'T' (codes "imestamp: ")
          (elem-decimal b'T' size refl)

  end_found :
      strstr (put_packet filename c size t rest) (codes "\r\n\r\n")
      ≡ some (codes "\r\n\r\n" ++ rest)
  end_found =
      strstr_skip_first filename (chunk_tail c (size_tail size t rest)) b'\r' (codes "\n\r\n")
        (no_cr n)
      ∙ strstr_skip_first (c ∷ []) (size_tail size t rest) b'\r' (codes "\n\r\n")
          (digit_ne b'\r' c d refl)
      ∙ strstr_skip_first (decimal size) (time_tail t rest) b'\r' (codes "\n\r\n")
          (elem-decimal b'\r' size refl)
      ∙ strstr_skip_first (decimal t) (codes ".000000\r\n\r\n" ++ rest) b'\r' (codes "\n\r\n")
          (elem-decimal b'\r' t refl)

  -- The size and the timestamp, if the header fits its copy.
  pub put_fields-put_packet :
      length (put_packet filename c size t rest) < bufsize
      → length (decimal t) < timestamp_size
      → put_fields (put_packet filename c size t rest) ≡ ok (pos size, decimal t)
  unfolding put_fields
  put_fields-put_packet fit short =
      rw (size_found, lt→ltb _ _ fit, time_found) (rw (stamp, lt→ltb _ _ short, number))
    where
      stamp : strtok_left (codes ".") (decimal t ++ (codes ".000000\r\n\r\n" ++ rest)) ≡ decimal t
      stamp =
          strtok_left_token (codes ".") (decimal t) b'.' (codes "000000\r\n\r\n" ++ rest)
            (decimal-ne-nil t) (avoids_single b'.' (decimal t) (elem-decimal b'.' t refl)) refl

      number : atoi (decimal size ++ time_tail t rest) ≡ pos size
      number = atoi-decimal size (time_tail t rest) refl

put_packet-append :
    (filename : Bytes) (c size t : ℕ) (rest : Bytes)
    → put_packet filename c size t rest ≡ put_packet filename c size t [] ++ rest
put_packet-append filename c size t rest = simp append_assoc

pub length-put_packet :
    (filename : Bytes) (c size t : ℕ) (rest : Bytes)
    → length (put_packet filename c size t rest)
      ≡ length (put_packet filename c size t []) + length rest
length-put_packet filename c size t rest =
    ap length (put_packet-append filename c size t rest)
    ∙ length-append (put_packet filename c size t []) rest

pub header_length-put_packet :
    (filename : Bytes) (c size t : ℕ) (rest : Bytes)
    → IsPlainName filename
    → is_digit c ≡ true
    → header_length (put_packet filename c size t rest)
      ≡ ok (length (put_packet filename c size t []))
unfolding header_length
header_length-put_packet filename c size t rest n d =
    rw (end_found filename c size t rest n d)
      (ap ok (omega (arith, length-put_packet filename c size t rest)))

pub drop-put_packet :
    (filename : Bytes) (c size t : ℕ) (rest : Bytes)
    → drop (length (put_packet filename c size t [])) (put_packet filename c size t rest) ≡ rest
drop-put_packet filename c size t rest =
    rw (put_packet-append filename c size t rest)
      (drop-append (put_packet filename c size t []) rest)

-- The packet as a string ends where the chunk's first NUL is.
pub cstr-put_packet :
    (filename : Bytes) (c size t : ℕ) (rest : Bytes)
    → IsPlainName filename
    → is_digit c ≡ true
    → cstr (put_packet filename c size t rest) ≡ put_packet filename c size t (cstr rest)
cstr-put_packet filename c size t rest n d =
    ap (λ s. codes "Command: put\r\nFilename: " ++ s)
      (cstr-append filename (chunk_tail c (size_tail size t rest)) n.no_nul
        ∙ ap (λ s. filename ++ s)
            (in_chunk
              ∙ ap (λ s. chunk_tail c (codes "\r\nSize: " ++ s))
                  (in_size ∙ ap (λ s. decimal size ++ (codes "\r\nTimestamp: " ++ s)) in_time)))
  where
    in_chunk :
        cstr (chunk_tail c (size_tail size t rest)) ≡ chunk_tail c (cstr (size_tail size t rest))
    in_chunk = ground arith

    in_size : cstr (decimal size ++ time_tail t rest) ≡ decimal size ++ cstr (time_tail t rest)
    in_size = cstr-append (decimal size) (time_tail t rest) (elem-decimal 0 size refl)

    in_time :
        cstr (decimal t ++ (codes ".000000\r\n\r\n" ++ rest))
        ≡ decimal t ++ (codes ".000000\r\n\r\n" ++ cstr rest)
    in_time = cstr-append (decimal t) (codes ".000000\r\n\r\n" ++ rest) (elem-decimal 0 t refl)

-- So is its copy in `temp_buf`, whatever the array held before.
temp_text-put_packet :
    (m : Memory) (filename : Bytes) (c size t : ℕ) (rest : Bytes)
    → IsPlainName filename
    → is_digit c ≡ true
    → (tail : Bytes) × (temp_text m (put_packet filename c size t rest)
        ≡ put_packet filename c size t tail)
unfolding temp_text
temp_text-put_packet m filename c size t rest n d =
    elim (Bool-cases (elem 0 (put_packet filename c size t rest))) [
      | inl nul ↦ (cstr rest, rw nul (cstr-put_packet filename c size t rest n d))
      | inr whole ↦
          let stale = cstr (drop (length (put_packet filename c size t rest)) m.stale) in
          (rest ++ stale, rw whole (simp append_assoc))
    ]

read_header-put_packet_tail :
    (filename : Bytes) (c size t : ℕ) (line tail : Bytes)
    → IsPlainName filename
    → is_digit c ≡ true
    → read_header (put_packet filename c size t line) (put_packet filename c size t tail)
      ≡ record { command = some (codes "put"); filename = some filename; chunk = some (c ∷ []) }
unfolding read_header
read_header-put_packet_tail filename c size t line tail n d =
    read_fields-put_packet filename c size t tail n d

pub read_header-put_packet :
    (m : Memory) (filename : Bytes) (c size t : ℕ) (rest line : Bytes)
    → IsPlainName filename
    → is_digit c ≡ true
    → read_header
        (put_packet filename c size t line)
        (temp_text m (put_packet filename c size t rest))
      ≡ record { command = some (codes "put"); filename = some filename; chunk = some (c ∷ []) }
read_header-put_packet m filename c size t rest line n d =
    let (tail, e) = temp_text-put_packet m filename c size t rest n d in
    ap (read_header (put_packet filename c size t line)) e
    ∙ read_header-put_packet_tail filename c size t line tail n d
