-- ===== src/Dfs/Node/Puts.antt =====
-- What a server of PA4/server/dfs.c has of one file after a put of one of its chunks.
use network_systems.Prelude.{
  ℕ, ◌≡◌, ◌≢◌, sym, ap, ◌∙◌, [], ◌++◌, Option, arith, length, length-append,
}
use network_systems.CString.{Bytes, codes, decimal}
use network_systems.Dfc.Messages.{put_packet}
use network_systems.Dfc.Shelf.{IsChunk}
use network_systems.Dfs.Files.{Files, store}
use network_systems.Dfs.Files.Laws.{
  NoMatch-store, newest-store_other, lookup-store_self, lookup-store_other,
}
use network_systems.Dfs.Files.Newest.{
  Above, NoMatch-Beneath, Beneath-store_other, Topped-store_other, Topped-store, Topped-Beneath,
  newest-store_above,
}
use network_systems.Dfs.Node.{Host, Node, idle, exchange}
use network_systems.Dfs.Node.Requests.{
  pattern, name, Serves, Sendable, Holding, Taking, Lacking, exchange_put,
}

pub Lacking-Taking :
    (host : Host) (filename : Bytes) (time : ℕ) (node : Node) (c : ℕ)
    → Lacking host filename time node c
    → Taking host filename time node c
Lacking-Taking host filename time node c l = record {
  files = l.files;
  state = l.state;
  beneath =
      NoMatch-Beneath host.shell (pattern host filename time c) (name host filename time c) _
        l.no_match;
  is_chunk = l.is_chunk;
}

-- What is there since one time is an older version at a later one.
pub Holding-Taking :
    (host : Host) (filename : Bytes) (time later : ℕ) (node : Node) (c : ℕ) (chunk : Bytes)
    → ((x y z : Bytes) → Above host.shell x y → Above host.shell y z → Above host.shell x z)
    → Above host.shell (name host filename later c) (name host filename time c)
    → Holding host filename time node c chunk
    → Taking host filename later node c
Holding-Taking host filename time later node c chunk trans up h = record {
  files = h.files;
  state = h.state;
  beneath =
      Topped-Beneath host.shell (pattern host filename time c) (name host filename time c)
        (name host filename later c) _ trans up h.topped;
  is_chunk = h.is_chunk;
}

pub Lacking-later :
    (host : Host) (filename : Bytes) (time later : ℕ) (node : Node) (c : ℕ)
    → Lacking host filename time node c
    → Lacking host filename later node c
Lacking-later host filename time later node c l = record {
  files = l.files;
  state = l.state;
  no_match = l.no_match;
  is_chunk = l.is_chunk;
}

module _ (host : Host) (filename : Bytes) (time : ℕ) (q : Serves host filename time) where
  abbrev after : ℕ → Bytes → Node → Node
  after c chunk node = (exchange host (put_packet filename c (length chunk) time chunk) node).1

  after_put :
      (node : Node) (files : Files) (c : ℕ) (chunk : Bytes)
      → Sendable host filename time c chunk
      → node ≡ idle files []
      → after c chunk node ≡ idle (store (name host filename time c) chunk files) []
  after_put node files c chunk k state =
      rw state
        (ap (λ (r : Option Bytes × Node). r.1) (exchange_put host filename time files c chunk k))

  name_ne_nil : (c : ℕ) → name host filename time c ≢ []
  name_ne_nil c e = omega (
    arith,
    ap length e,
    length-append (pattern host filename time c ++ codes "-") (decimal time),
    length-append (pattern host filename time c) (codes "-"),
  )

  name_ne :
      (c d : ℕ)
      → IsChunk c
      → IsChunk d
      → c ≢ d
      → name host filename time c ≢ name host filename time d
  name_ne c d is is' ne e = cc (q.grep_self c is, q.grep_other c d is is' ne)

  pub Holding-put :
      (node : Node) (c : ℕ) (chunk : Bytes)
      → Sendable host filename time c chunk
      → Taking host filename time node c
      → Holding host filename time (after c chunk node) c chunk
  Holding-put node c chunk k t = record {
    files = store (name host filename time c) chunk t.files;
    state = after_put node t.files c chunk k t.state;
    top =
        newest-store_above host.shell (pattern host filename time c) (name host filename time c)
          chunk t.files (q.grep_self c k.is_chunk) (name_ne_nil c) t.beneath;
    content = lookup-store_self (name host filename time c) chunk t.files;
    topped =
        Topped-store host.shell (pattern host filename time c) (name host filename time c) chunk
          t.files t.beneath;
    is_chunk = k.is_chunk;
  }

  module _ (node : Node) (c : ℕ) (chunk : Bytes) (d : ℕ) (k : Sendable host filename time c chunk)
      (ne : c ≢ d) where
    pub Holding-put_other :
        (other : Bytes)
        → Holding host filename time node d other
        → Holding host filename time (after c chunk node) d other
    Holding-put_other other h =
        let fails = q.grep_other d c h.is_chunk k.is_chunk (λ e. ne (sym e)) in
        record {
          files = store (name host filename time c) chunk h.files;
          state = after_put node h.files c chunk k h.state;
          top =
              newest-store_other host.shell (pattern host filename time d)
                (name host filename time c) chunk h.files fails
              ∙ h.top;
          content =
              lookup-store_other (name host filename time c) (name host filename time d) chunk
                h.files (name_ne c d k.is_chunk h.is_chunk ne)
              ∙ h.content;
          topped =
              Topped-store_other host.shell (pattern host filename time d)
                (name host filename time d) (name host filename time c) chunk h.files fails
                h.topped;
          is_chunk = h.is_chunk;
        }

    pub Taking-put :
        Taking host filename time node d → Taking host filename time (after c chunk node) d
    Taking-put t = record {
      files = store (name host filename time c) chunk t.files;
      state = after_put node t.files c chunk k t.state;
      beneath =
          Beneath-store_other host.shell (pattern host filename time d) (name host filename time d)
            (name host filename time c) chunk t.files
            (q.grep_other d c t.is_chunk k.is_chunk (λ e. ne (sym e))) t.beneath;
      is_chunk = t.is_chunk;
    }

    pub Lacking-put :
        Lacking host filename time node d → Lacking host filename time (after c chunk node) d
    Lacking-put l = record {
      files = store (name host filename time c) chunk l.files;
      state = after_put node l.files c chunk k l.state;
      no_match =
          NoMatch-store host.shell (pattern host filename time d) (name host filename time c) chunk
            l.files (q.grep_other d c l.is_chunk k.is_chunk (λ e. ne (sym e))) l.no_match;
      is_chunk = l.is_chunk;
    }
