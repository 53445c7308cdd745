-- ===== src/Dfs/Request/Get.antt =====
-- What the server reads from the request for a chunk, a header with zeros behind it.
use network_systems.Prelude.{
  ℕ, ◌≡◌, refl, [], ◌∷◌, ◌++◌, true, some, arith, length, ◌∙◌, ap, Bool-cases, inl, inr,
  append_assoc, ltb,
}
use network_systems.CString.{
  Bytes, codes, cstr, cstr-append, strtok_token, is_digit, elem, elem-append,
}
use network_systems.Stream.{bufsize}
use network_systems.Dfc.Messages.{get_packet, chunk_tail, IsPlainName}
use network_systems.Dfs.Request.{read_fields, read_header, Memory, temp_text, buf_text}

module _ (filename : Bytes) (c : ℕ) (n : IsPlainName filename) (d : is_digit c ≡ true) where
  read_fields-get_packet :
      (rest : Bytes)
      → read_fields (get_packet filename c rest)
        ≡ record { command = some (codes "get"); filename = some filename; chunk = some (c ∷ []) }
  unfolding read_fields
  read_fields-get_packet rest =
      rw
        (strtok_token (codes "\r\n") filename b'\r'
          (codes "\nChunk: " ++ (c ∷ (codes "\r\n\r\n" ++ rest))) n.ne_nil n.one_line refl)
        (ground arith)

  -- The string in the buffer is the header alone.
  cstr-get_packet :
      (zeros : Bytes) → cstr (get_packet filename c (0 ∷ zeros)) ≡ get_packet filename c []
  cstr-get_packet zeros =
      ap (λ s. codes "Command: get\r\nFilename: " ++ s)
        (cstr-append filename (chunk_tail c (codes "\r\n\r\n" ++ (0 ∷ zeros))) n.no_nul
          ∙ ap (λ s. filename ++ s) in_chunk)
    where
      in_chunk :
          cstr (chunk_tail c (codes "\r\n\r\n" ++ (0 ∷ zeros))) ≡ chunk_tail c (codes "\r\n\r\n")
      in_chunk = ground arith

  elem-get_packet : (zeros : Bytes) → elem 0 (get_packet filename c (0 ∷ zeros)) ≡ true
  elem-get_packet zeros =
      rw (elem-append 0 filename (chunk_tail c (codes "\r\n\r\n" ++ (0 ∷ zeros)))) (ground arith)

  pub temp_text-get_packet :
      (m : Memory) (zeros : Bytes)
      → temp_text m (get_packet filename c (0 ∷ zeros)) ≡ get_packet filename c []
  unfolding temp_text
  temp_text-get_packet m zeros = rw (elem-get_packet zeros) (cstr-get_packet zeros)

  pub buf_text-get_packet :
      (m : Memory) (zeros : Bytes)
      → buf_text m (get_packet filename c (0 ∷ zeros)) ≡ get_packet filename c []
  unfolding buf_text
  buf_text-get_packet m zeros =
      elim (Bool-cases (ltb (length (get_packet filename c (0 ∷ zeros))) bufsize)) [
        | inl short ↦ rw short (cstr-get_packet zeros)
        | inr whole ↦ rw whole (ap cstr (glued m.beyond) ∙ cstr-get_packet (zeros ++ m.beyond))
      ]
    where
      glued :
          (more : Bytes)
          → get_packet filename c (0 ∷ zeros) ++ more ≡ get_packet filename c (0 ∷ (zeros ++ more))
      glued more = simp append_assoc

  pub read_header-get_packet :
      read_header (get_packet filename c []) (get_packet filename c [])
      ≡ record { command = some (codes "get"); filename = some filename; chunk = some (c ∷ []) }
  unfolding read_header
  read_header-get_packet = read_fields-get_packet []
