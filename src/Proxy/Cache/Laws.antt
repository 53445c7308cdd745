-- ===== src/Proxy/Cache/Laws.antt =====
-- What the client gets from the cache.
use network_systems.Prelude.{
  ℕ, zero, suc, ◌≤◌, ◌<◌, ◌≡◌, refl, Bool, true, false, ◌||◌, some, List, [], ◌∷◌, ◌++◌, arith,
  length, drop, join, lt→ltb, if◌then◌else◌, Bool-cases, inl, inr, append_assoc, take-append-drop,
  append-nil, ap, ◌∙◌, length-drop, length-take, sym, ◌==◌,
}
use network_systems.CString.{Bytes, codes, streq}
use network_systems.Stream.{bufsize}
use network_systems.Machine.{ok}
use network_systems.Web.Reply.{Connection, send, close}
use network_systems.Web.Service.{temp_size, response_header}
use network_systems.Proxy.Content.{filename_ext, content_type}
use network_systems.Proxy.Relay.{Wanted}
use network_systems.Proxy.World.{Entry, World, Scene}
use network_systems.Proxy.Cache.{pieces, send_all, send_from_cache}

-- The file is sent whole, in order.
join-pieces : (fuel : ℕ) (file : Bytes) → length file ≤ fuel → join (pieces fuel file) ≡ file
unfolding pieces
join-pieces zero [] h = refl
join-pieces zero (c ∷ file) h = absurd (omega arith)
join-pieces (suc fuel) file h = elim (Bool-cases (length file == 0)) [
  | inl empty ↦ rw empty (nil file (ground arith))
  | inr some_left ↦
      let left : length (drop bufsize file) ≤ fuel =
        omega (arith, length-drop bufsize file, more file some_left) in
      rw (some_left, join-pieces fuel (drop bufsize file) left) (take-append-drop bufsize file)
]
  where
    nil : (s : Bytes) → length s ≡ 0 → [] ≡ s
    nil [] e = refl
    nil (c ∷ s) e = absurd (omega arith)

    more : (s : Bytes) → (length s == 0) ≡ false → 0 < length s
    more s e = ground arith

abbrev pub AllShort : List Bytes → Type 0
AllShort [] = Unit
AllShort (p ∷ ps) = (length p ≤ bufsize) × AllShort ps

pieces-AllShort : (fuel : ℕ) (file : Bytes) → AllShort (pieces fuel file)
unfolding pieces
pieces-AllShort zero file = tt
pieces-AllShort (suc fuel) file = elim (Bool-cases (length file == 0)) [
  | inl empty ↦ rw empty tt
  | inr some_left ↦
      rw some_left
        (omega (arith, length-take bufsize file), pieces-AllShort fuel (drop bufsize file))
]

sent-send_all : (ps : List Bytes) (c : Connection) → (send_all ps c).sent ≡ c.sent ++ ps
sent-send_all [] c = sym (append-nil c.sent)
sent-send_all (p ∷ ps) c = sent-send_all ps (send p c) ∙ append_assoc c.sent (p ∷ []) ps

is_open-send_all : (ps : List Bytes) (c : Connection) → (send_all ps c).is_open ≡ c.is_open
is_open-send_all [] c = refl
is_open-send_all (p ∷ ps) c = is_open-send_all ps (send p c)

-- The connection that the response names, and whether the proxy closes after it.
abbrev pub last_connection : Scene → Bytes → Bytes
last_connection s connection = if s.running then connection else codes "close"

abbrev pub closes : Bytes → Bool
closes last = streq last (codes "close") || streq last (codes "Close")

abbrev pub cache_header : Scene → Wanted → Bytes → Bytes → Bytes
cache_header s q connection content =
    response_header q.version (content_type (filename_ext q.file)) (length content)
      (last_connection s connection)

-- The texts fit their arrays.
pub record CanServe (s : Scene) (q : Wanted) (connection content : Bytes) : Type 0 where
  pub version : length q.version < temp_size
  pub has_connection : q.request.connection ≡ some connection
  pub short_connection : length connection < temp_size
  pub path : length (codes "cache/" ++ q.hash) < temp_size
  pub header : length (cache_header s q connection content) < bufsize

-- The client has got the header and, in pieces of at most BUFSIZE bytes, the content.
pub record Served (s : Scene) (q : Wanted) (connection content : Bytes) (w w' : World)
    : Type 0 where
  pub ps : List Bytes
  pub sent : w'.client.sent ≡ w.client.sent ++ cache_header s q connection content ∷ ps
  pub whole : join ps ≡ content
  pub short : AllShort ps
  pub is_open :
      w'.client.is_open
      ≡ (if closes (last_connection s connection) then false else w.client.is_open)
  pub cache : w'.cache ≡ w.cache
  pub asked : w'.asked ≡ w.asked

close_if : (b : Bool) (c : Connection) → (if b then close c else c).sent ≡ c.sent
close_if true c = refl
close_if false c = refl

is_open-close_if :
    (b : Bool) (c : Connection)
    → (if b then close c else c).is_open ≡ (if b then false else c.is_open)
is_open-close_if true c = refl
is_open-close_if false c = refl

-- A file that is in the cache is sent whole: its header, then its bytes in order in pieces of at
-- most BUFSIZE bytes. The texts fit their arrays.
pub send_from_cache-Served :
    (s : Scene) (q : Wanted) (w : World) (connection : Bytes) (entry : Entry)
    → CanServe s q connection entry.content
    → w.cache q.hash ≡ some entry
    → (w' : World) × (send_from_cache s q w ≡ ok w') × Served s q connection entry.content w w'
unfolding send_from_cache
send_from_cache-Served s q w connection entry can found =
    let content = entry.content in
    let ps = pieces (length content) content in
    let sent : Connection = send_all ps (send (cache_header s q connection content) w.client) in
    let last = closes (last_connection s connection) in
    (
      record w { client = if last then close sent else sent },
      rw (
        lt→ltb (length q.version) temp_size can.version,
        can.has_connection,
        lt→ltb (length connection) temp_size can.short_connection,
        lt→ltb (length (codes "cache/" ++ q.hash)) temp_size can.path,
        found,
        lt→ltb (length (cache_header s q connection content)) bufsize can.header,
      ),
      record {
        ps = ps;
        sent =
            close_if last sent
            ∙ sent-send_all ps (send (cache_header s q connection content) w.client)
            ∙ append_assoc w.client.sent (cache_header s q connection content ∷ []) ps;
        whole = join-pieces (length content) content (omega arith);
        short = pieces-AllShort (length content) content;
        is_open =
            is_open-close_if last sent
            ∙ ap (λ b. if last then false else b)
                (is_open-send_all ps (send (cache_header s q connection content) w.client));
        cache = refl;
        asked = refl;
      },
    )
