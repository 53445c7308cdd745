-- ===== src/Dfs/Node/Requests.antt =====
-- What a server of PA4/server/dfs.c, as its client sees it, answers to the messages of a put and a
-- get for one file.
use network_systems.Prelude.{
  ℕ, zero, suc, ◌+◌, ◌-◌, ◌<◌, ◌≡◌, ◌≢◌, refl, ap, ◌∙◌, true, false, [], ◌∷◌, ◌++◌, some, arith,
  length, length-append, replicate, join, take, take_all, drop_all, append_assoc,
}
use network_systems.CString.{Bytes, codes, decimal, contains, contains_prefix}
use network_systems.Stream.{Segments, bufsize, recv}
use network_systems.Stream.Laws.{AllFull}
use network_systems.ChunkServer.{get_message, ready}
use network_systems.Dfc.Messages.{put_packet, get_packet}
use network_systems.Dfc.Shelf.{IsChunk}
use network_systems.Dfs.Files.{Files, names, lookup, store, newest}
use network_systems.Dfs.Files.Laws.{NoMatch, newest-NoMatch}
use network_systems.Dfs.Files.Newest.{Topped, Beneath}
use network_systems.Dfs.Request.{ok}
use network_systems.Dfs.Service.{
  put_ack, not_found, again, round, file_chunk, entry_name, size_message, send_file, send,
}
use network_systems.Dfs.Service.Put.{IsPutRequest, round-put_packet}
use network_systems.Dfs.Service.Get.{IsGetRequest, round_found, round_missing}
use network_systems.Dfs.Node.{Host, Node, idle, waiting, server_of, exchange}

AllFull-nil : (segs : Segments) → AllFull segs → join segs ≡ [] → segs ≡ []
AllFull-nil [] h e = refl
AllFull-nil (s ∷ rest) h e = absurd (omega (arith, h.0, ap length e, length-append s (join rest)))

replicate_pos : (n a : ℕ) → 0 < n → replicate n a ≡ a ∷ replicate (n - 1) a
replicate_pos zero a h = absurd (omega arith)
replicate_pos (suc n) a h = let e : suc n - 1 ≡ n = omega arith in rw e

contains_empty : (p : Bytes) → 0 < length p → contains [] p ≡ false
contains_empty [] h = absurd (omega arith)
contains_empty (c ∷ p) h = refl

module _ (host : Host) (filename : Bytes) (time : ℕ) where
  abbrev pub pattern : ℕ → Bytes
  pattern c = file_chunk filename (c ∷ [])

  abbrev pub name : ℕ → Bytes
  name c = entry_name filename (c ∷ []) (decimal time)

  -- The zeros behind a request, but for the first.
  abbrev pub zeros : ℕ → Bytes
  zeros c = replicate (bufsize - length (get_packet filename c []) - 1) 0

  -- What is relied on for one file: `grep` takes the pattern of a chunk for the entry of that
  -- chunk and of no other, and a request comes in one segment.
  pub record Serves : Type 0 where
    pub grep_self : (c : ℕ) → IsChunk c → host.shell.grep (pattern c) (name c) ≡ true
    pub grep_other :
        (c d : ℕ) → IsChunk c → IsChunk d → c ≢ d → host.shell.grep (pattern c) (name d) ≡ false
    pub request : (c : ℕ) → IsChunk c → IsGetRequest host.dir filename c (zeros c)
    pub in_one_segment :
        (c : ℕ)
        → IsChunk c
        → host.cut (get_packet filename c (0 ∷ zeros c)) ≡ get_packet filename c (0 ∷ zeros c) ∷ []

  -- A chunk that arrives as `IsPutRequest` asks: its header, and `part` of it, in the first segment.
  pub record Sendable (c : ℕ) (chunk : Bytes) : Type 0 where
    pub is_chunk : IsChunk c
    pub part : Bytes
    pub later : Segments
    pub arrives :
        host.cut (put_packet filename c (length chunk) time chunk)
        ≡ put_packet filename c (length chunk) time part ∷ later
    pub full : AllFull later
    pub splits : part ++ join later ≡ chunk
    pub request : IsPutRequest host.dir filename c (length chunk) time part
    pub some_bytes : 0 < length chunk
    pub short_size : length (decimal (length chunk)) < 1024

  pub record Holding (node : Node) (c : ℕ) (chunk : Bytes) : Type 0 where
    pub files : Files
    pub state : node ≡ idle files []
    pub top : newest host.shell (pattern c) (names files) ≡ name c
    pub content : lookup (name c) files ≡ some chunk
    pub topped : Topped host.shell (pattern c) (name c) (names files)
    pub is_chunk : IsChunk c

  -- The chunk may be there in older versions.
  pub record Taking (node : Node) (c : ℕ) : Type 0 where
    pub files : Files
    pub state : node ≡ idle files []
    pub beneath : Beneath host.shell (pattern c) (name c) (names files)
    pub is_chunk : IsChunk c

  pub record Lacking (node : Node) (c : ℕ) : Type 0 where
    pub files : Files
    pub state : node ≡ idle files []
    pub no_match : NoMatch host.shell (pattern c) (names files)
    pub is_chunk : IsChunk c

  length-get_packet :
      (c : ℕ) (rest : Bytes)
      → length (get_packet filename c rest) ≡ length (get_packet filename c []) + length rest
  length-get_packet c rest = ap length joined ∙ length-append (get_packet filename c []) rest
    where
      joined : get_packet filename c rest ≡ get_packet filename c [] ++ rest
      joined = simp append_assoc

  -- The buffer of a request ends in at least one zero.
  message :
      (c : ℕ)
      → IsGetRequest host.dir filename c (zeros c)
      → get_message filename c ≡ get_packet filename c (0 ∷ zeros c)
  message c q =
      ap (get_packet filename c)
        (replicate_pos _ 0 (omega (arith, q.whole, length-get_packet c (0 ∷ zeros c))))

  has_pattern : (c : ℕ) → contains (name c) (pattern c) ≡ true
  has_pattern c =
      rw (append_assoc (pattern c) (codes "-") (decimal time))
        (contains_prefix (pattern c) (codes "-" ++ decimal time))

  -- The empty line does not have the pattern.
  no_pattern :
      (c : ℕ) → IsGetRequest host.dir filename c (zeros c) → contains [] (pattern c) ≡ false
  no_pattern c q =
      contains_empty (pattern c) (omega (arith, length-append (filename ++ codes "-") (c ∷ [])))

  -- A put on a connection that waits for a request.
  pub exchange_put :
      (files : Files) (c : ℕ) (chunk : Bytes)
      → Sendable c chunk
      → exchange host (put_packet filename c (length chunk) time chunk) (idle files [])
        ≡ (some put_ack, idle (store (name c) chunk files) [])
  unfolding exchange
  exchange_put files c chunk q =
      let s = server_of host files (host.cut (put_packet filename c (length chunk) time chunk)) in
      let n = length chunk - length q.part in
      let left : n ≡ length (join q.later) =
        omega (arith, ap length q.splits, length-append q.part (join q.later)) in
      let (rest, ran, behind, full) =
        round-put_packet host.shell host.memory s filename c (length chunk) time q.part q.later
          q.request q.arrives q.full (omega arith) in
      let whole : q.part ++ take n (join q.later) ≡ chunk =
        ap (λ b. q.part ++ b) (take_all n (join q.later) (omega arith)) ∙ q.splits in
      let nothing : rest ≡ [] =
        AllFull-nil rest full (behind ∙ drop_all n (join q.later) (omega arith)) in
      rw ran (
        ap (λ b. (some put_ack, idle (store (name c) b files) rest)) whole
        ∙ ap (λ r. (some put_ack, idle (store (name c) chunk files) r)) nothing)

  pub exchange_found :
      (node : Node) (c : ℕ) (chunk : Bytes)
      → Serves
      → (h : Holding node c chunk)
      → exchange host (get_message filename c) node
        ≡ (some (size_message host.memory (length chunk)), waiting h.files [] chunk)
  unfolding exchange send_file recv
  exchange_found node c chunk q h = rw h.state (rw found)
    where
      found :
          round host.shell host.memory (server_of host h.files (host.cut (get_message filename c)))
          ≡ ok (again (send_file host.memory chunk (server_of host h.files [])))
      found =
          round_found host.shell host.memory
            (server_of host h.files (host.cut (get_message filename c))) filename c (zeros c) []
            (q.request c h.is_chunk)
            (ap host.cut (message c (q.request c h.is_chunk)) ∙ q.in_one_segment c h.is_chunk)
            (name c) chunk h.top (has_pattern c) h.content

  pub exchange_missing :
      (node : Node) (c : ℕ)
      → Serves
      → (l : Lacking node c)
      → exchange host (get_message filename c) node ≡ (some not_found, idle l.files [])
  unfolding exchange
  exchange_missing node c q l = rw l.state (rw missing)
    where
      absent : contains (newest host.shell (pattern c) (names l.files)) (pattern c) ≡ false
      absent =
          rw (newest-NoMatch host.shell (pattern c) (names l.files) l.no_match)
            (no_pattern c (q.request c l.is_chunk))

      missing :
          round host.shell host.memory (server_of host l.files (host.cut (get_message filename c)))
          ≡ ok (again (send not_found (server_of host l.files [])))
      missing =
          round_missing host.shell host.memory
            (server_of host l.files (host.cut (get_message filename c))) filename c (zeros c) []
            (q.request c l.is_chunk)
            (ap host.cut (message c (q.request c l.is_chunk)) ∙ q.in_one_segment c l.is_chunk)
            absent

  pub exchange_ready :
      (files : Files) (content : Bytes)
      → exchange host ready (waiting files [] content) ≡ (some content, idle files [])
  unfolding exchange
  exchange_ready files content = refl
