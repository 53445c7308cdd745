-- ===== src/Dfs/Service/Get.antt =====
-- A get: the chunk that the shell's answer names, or "Not Found".
use network_systems.Prelude.{
  ℕ, ◌<◌, ◌≤◌, ◌≡◌, ◌∙◌, ap, [], ◌∷◌, true, false, some, arith, length, lt→ltb,
}
use network_systems.CString.{Bytes, codes, is_digit, contains}
use network_systems.Stream.{Segments, recv, bufsize}
use network_systems.Stream.Laws.{recv_first}
use network_systems.Dfc.Messages.{get_packet, IsPlainName}
use network_systems.Dfs.Files.{Shell, newest, lookup, names}
use network_systems.Dfs.Request
use network_systems.Dfs.Request.{
  Result, ok, err, null_pointer, Memory, buf_text, temp_text, is_done, read_header, Header, fits,
}
use network_systems.Dfs.Service.{
  Server, again, round, perform, get, send_file, send, not_found, file_chunk, find_command,
}

-- A request for one chunk that arrives whole, with the zeros of the client's buffer behind it.
pub record IsGetRequest (dir filename : Bytes) (c : ℕ) (zeros : Bytes) : Type 0 where
  pub name : IsPlainName filename
  pub digit : is_digit c ≡ true
  pub whole : length (get_packet filename c (0 ∷ zeros)) ≤ bufsize
  pub command_fits : length (find_command dir (file_chunk filename (c ∷ []))) < bufsize
  pub no_marker : is_done (get_packet filename c []) ≡ false

-- A round on a get request, with the reads of the header as equations.
round-get_request :
    (sh : Shell) (m : Memory) (s : Server) (buf line filename chunk : Bytes) (rest : Segments)
    (s' : Server)
    → recv bufsize s.inbound ≡ (buf, rest)
    → 0 < length buf
    → buf_text m buf ≡ line
    → is_done line ≡ false
    → read_header line (temp_text m buf)
      ≡ record { command = some (codes "get"); filename = some filename; chunk = some chunk }
    → get sh m filename chunk (record s { inbound = rest }) ≡ ok s'
    → round sh m s ≡ ok (again s')
unfolding round perform
round-get_request sh m s buf line filename chunk rest s' r full text marker h answers =
    rw (r, text, marker, h, answers) (ground arith)

module _ (sh : Shell) (m : Memory) (s : Server) (filename : Bytes) (c : ℕ) (zeros : Bytes)
    (segs : Segments) (q : IsGetRequest s.dir filename c zeros)
    (inbound : s.inbound ≡ get_packet filename c (0 ∷ zeros) ∷ segs) where
  round-get_packet :
      {s' : Server}
      → get sh m filename (c ∷ []) (record s { inbound = segs }) ≡ ok s'
      → round sh m s ≡ ok (again s')
  round-get_packet {s'} answers =
      let packet = get_packet filename c (0 ∷ zeros) in
      let full : 0 < length packet = ground arith in
      round-get_request sh m s packet (get_packet filename c []) filename (c ∷ []) segs s'
        (ap (recv bufsize) inbound ∙ recv_first bufsize packet segs q.whole) full
        (Request.Get.buf_text-get_packet filename c q.name q.digit m zeros) q.no_marker
        (ap (read_header (get_packet filename c []))
            (Request.Get.temp_text-get_packet filename c q.name q.digit m zeros)
          ∙ Request.Get.read_header-get_packet filename c q.name q.digit)
        answers

  -- On a request that arrives as `IsGetRequest` asks: if the shell names an entry that has the pattern in its name, the client gets its size, and
  -- after one more message of the client its content; the entries stay as they are.
  pub round_found :
      (name content : Bytes)
      → newest sh (file_chunk filename (c ∷ [])) (names s.files) ≡ name
      → contains name (file_chunk filename (c ∷ [])) ≡ true
      → lookup name s.files ≡ some content
      → round sh m s ≡ ok (again (send_file m content (record s { inbound = segs })))
  round_found name content top has found = round-get_packet answers
    where
      answers :
          get sh m filename (c ∷ []) (record s { inbound = segs })
          ≡ ok (send_file m content (record s { inbound = segs }))
      answers = unfold get in rw (lt→ltb _ _ q.command_fits, top, has, found)

  -- On a request that arrives as `IsGetRequest` asks: if the line that the shell names does not have the pattern, the client gets "Not Found".
  pub round_missing :
      contains
          (newest sh (file_chunk filename (c ∷ [])) (names s.files))
          (file_chunk filename (c ∷ []))
        ≡ false
      → round sh m s ≡ ok (again (send not_found (record s { inbound = segs })))
  round_missing has = round-get_packet answers
    where
      answers :
          get sh m filename (c ∷ []) (record s { inbound = segs })
          ≡ ok (send not_found (record s { inbound = segs }))
      answers = unfold get in rw (lt→ltb _ _ q.command_fits, has)
