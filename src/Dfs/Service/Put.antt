-- ===== src/Dfs/Service/Put.antt =====
-- A put of PA4/server/dfs.c: its first segment, and the rest of its chunk.
use network_systems.Prelude.{
  ℕ, suc, ◌-◌, ◌<◌, ◌≤◌, ◌≡◌, ◌∙◌, ap, [], ◌∷◌, ◌++◌, true, false, some, arith, length, take, drop,
  join, lt→ltb, ltb,
}
use network_systems.CString.{Bytes, codes, length-cstr-le, cstr, decimal, is_digit, pos}
use network_systems.Stream.{Segments, recv, read_rest, bufsize}
use network_systems.Stream.Laws.{AllFull, read_rest_all, recv_first}
use network_systems.Dfc.Messages.{put_packet, IsPlainName}
use network_systems.Dfs.Files.{Shell, store}
use network_systems.Dfs.Request.{
  Result, ok, err, ◌>>=◌, buf_text_short, Memory, buf_text, temp_text, is_done, read_header,
  put_fields, header_length, timestamp_size, Header,
}
use network_systems.Dfs.Request
use network_systems.Dfs.Service.{
  Server, again, round, perform, put, put_ack, send, entry_name, path_of,
}

-- What the client sent for one chunk: a plain name, a chunk's digit, room in every array, and no
-- marker that ends the session in the part that the first `recv` gets.
pub record IsPutRequest (dir filename : Bytes) (c size t : ℕ) (part : Bytes) : Type 0 where
  pub name : IsPlainName filename
  pub digit : is_digit c ≡ true
  pub fits : length (put_packet filename c size t part) < bufsize
  pub short_time : length (decimal t) < timestamp_size
  pub path_fits : length (path_of dir (entry_name filename (c ∷ []) (decimal t))) < bufsize
  pub no_marker : is_done (put_packet filename c size t (cstr part)) ≡ false

-- The server after a put: the entry holds the chunk, and the acknowledgement is sent.
abbrev pub stored : Server → Bytes → ℕ → ℕ → Bytes → Segments → Server
stored s filename c t chunk rest = send put_ack (record s {
  files = store (entry_name filename (c ∷ []) (decimal t)) chunk s.files;
  inbound = rest;
})

put-stored :
    (s : Server) (filename chunk time buf part more : Bytes) (header size : ℕ) (rest : Segments)
    → length (path_of s.dir (entry_name filename chunk time)) < bufsize
    → header ≤ length buf
    → drop header buf ≡ part
    → read_rest (suc (size - length part)) (size - length part) 0 s.inbound ≡ some (more, rest)
    → put buf header filename chunk (pos size) time s
      ≡ ok (
          send put_ack (record s {
            files = store (entry_name filename chunk time) (part ++ more) s.files;
            inbound = rest;
          }))
unfolding put
put-stored s filename chunk time buf part more header size rest fit hdr cut e =
    rw (lt→ltb _ _ fit, not_less, cut, e)
  where
    not_less : ltb (length buf) header ≡ false
    not_less = ground arith

-- A round on a put request, with the reads of the header as equations.
round-put_request :
    (sh : Shell) (m : Memory) (s : Server) (buf line filename chunk time : Bytes) (size header : ℕ)
    (rest : Segments) (r : Result Server)
    → recv bufsize s.inbound ≡ (buf, rest)
    → 0 < length buf
    → buf_text m buf ≡ line
    → is_done line ≡ false
    → read_header line (temp_text m buf)
      ≡ record { command = some (codes "put"); filename = some filename; chunk = some chunk }
    → put_fields line ≡ ok (pos size, time)
    → header_length line ≡ ok header
    → put buf header filename chunk (pos size) time (record s { inbound = rest }) ≡ r
    → round sh m s ≡ (r >>= λ s'. ok (again s'))
unfolding round perform
round-put_request sh m s buf line filename chunk time size header rest r got full text marker h
      fields len stores =
    rw (got, text, marker, h, fields, len, stores) (ground arith)

-- A round on a put that arrives as `IsPutRequest` asks, by what `put` makes of it.
pub round-put :
    (sh : Shell) (m : Memory) (s : Server) (filename : Bytes) (c size t : ℕ) (part : Bytes)
    (segs : Segments) (r : Result Server)
    → IsPutRequest s.dir filename c size t part
    → s.inbound ≡ put_packet filename c size t part ∷ segs
    → put
        (put_packet filename c size t part)
        (length (put_packet filename c size t []))
        filename
        (c ∷ [])
        (pos size)
        (decimal t)
        (record s { inbound = segs })
      ≡ r
    → round sh m s ≡ (r >>= λ s'. ok (again s'))
round-put sh m s filename c size t part segs r q inbound stores =
    let packet = put_packet filename c size t part in
    let line = put_packet filename c size t (cstr part) in
    let shorter : length line < bufsize = omega (
      arith,
      q.fits,
      length-cstr-le part,
      Request.Put.length-put_packet filename c size t part,
      Request.Put.length-put_packet filename c size t (cstr part),
    ) in
    round-put_request sh m s packet line filename (c ∷ []) (decimal t) size
      (length (put_packet filename c size t [])) segs r
      (ap (recv bufsize) inbound ∙ recv_first bufsize packet segs (omega (arith, q.fits)))
      (omega (arith, Request.Put.length-put_packet filename c size t part))
      (buf_text_short m packet q.fits
        ∙ Request.Put.cstr-put_packet filename c size t part q.name q.digit)
      q.no_marker
      (Request.Put.read_header-put_packet m filename c size t part (cstr part) q.name q.digit)
      (Request.Put.put_fields-put_packet filename c size t (cstr part) q.name q.digit shorter
        q.short_time)
      (Request.Put.header_length-put_packet filename c size t (cstr part) q.name q.digit) stores

-- The server takes one put, whatever its memory and its shell. The file's name is plain; the first
-- segment has the whole header and `part` of the chunk, is below 8192 bytes, and has none of the
-- texts that end a session in front of a NUL; the timestamp and the path fit their arrays. The rest
-- of the chunk comes in later segments, cut anywhere. The entry
-- filename-chunk-timestamp then holds exactly the chunk's bytes, the other entries are as `store`
-- leaves them, "PUT successful" is sent, and the stream stands behind the chunk.
pub round-put_packet :
    (sh : Shell) (m : Memory) (s : Server) (filename : Bytes) (c size t : ℕ) (part : Bytes)
    (segs : Segments)
    → IsPutRequest s.dir filename c size t part
    → s.inbound ≡ put_packet filename c size t part ∷ segs
    → AllFull segs
    → size - length part ≤ length (join segs)
    → (rest : Segments) × (round sh m s
        ≡ ok (again (stored s filename c t (part ++ take (size - length part) (join segs)) rest)))
      × (join rest ≡ drop (size - length part) (join segs))
      × AllFull rest
round-put_packet sh m s filename c size t part segs q inbound full enough =
    let (rest, reads, behind, full') = read_rest_all (size - length part) segs full enough in
    let packet = put_packet filename c size t part in
    let header = length (put_packet filename c size t []) in
    (
      rest,
      round-put sh m s filename c size t part segs _ q inbound (
          put-stored (record s { inbound = segs }) filename (c ∷ []) (decimal t) packet part _
            header size rest q.path_fits
            (omega (arith, Request.Put.length-put_packet filename c size t part))
            (Request.Put.drop-put_packet filename c size t part) reads),
      behind,
      full',
    )
