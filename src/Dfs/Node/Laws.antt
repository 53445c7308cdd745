-- ===== src/Dfs/Node/Laws.antt =====
-- A server of PA4/server/dfs.c beside the laws of `ServerLaws`.
use network_systems.Prelude.{ℕ, ◌≡◌, refl, sym, ap, ◌∙◌, [], Option, arith, length}
use network_systems.CString.{Bytes}
use network_systems.ChunkServer.{ServerLaws, get_message, ready}
use network_systems.Dfs.Files.{Files}
use network_systems.Dfs.Service.{put_ack, size_message}
use network_systems.Dfs.Service.Size.{
  length-size_message_pos, length-size_message-le, size_message_ne, atoi-size_message,
}
use network_systems.Dfs.Node.{Host, Node, idle, exchange, connect, dfs_server}
use network_systems.Dfs.Node.Puts.{
  Lacking-Taking, Holding-put, Holding-put_other, Taking-put, Lacking-put,
}
use network_systems.Dfs.Node.Requests.{
  Serves, Sendable, Holding, Taking, Lacking, exchange_put, exchange_found, exchange_missing,
  exchange_ready,
}

module _ (host : Host) (filename : Bytes) (time : ℕ) (q : Serves host filename time) where
  -- After a chunk was fetched, and after a chunk was missed, the server is as it was.
  after_fetch :
      (node : Node) (c : ℕ) (chunk : Bytes)
      → Holding host filename time node c chunk
      → (exchange host ready (exchange host (get_message filename c) node).1).1 ≡ node
  after_fetch node c chunk h =
      ap (λ (r : Option Bytes × Node). (exchange host ready r.1).1)
        (exchange_found host filename time node c chunk q h)
      ∙ ap (λ (r : Option Bytes × Node). r.1) (exchange_ready host filename time h.files chunk)
      ∙ sym h.state

  after_miss :
      (node : Node) (c : ℕ)
      → Lacking host filename time node c
      → (exchange host (get_message filename c) node).1 ≡ node
  after_miss node c l =
      ap (λ (r : Option Bytes × Node). r.1) (exchange_missing host filename time node c q l)
      ∙ sym l.state

  connect_idle : (files : Files) → connect (idle files []) ≡ idle files []
  unfolding connect
  connect_idle files = refl

  connect_self : {node : Node} {files : Files} → node ≡ idle files [] → connect node ≡ node
  connect_self {files} e = ap connect e ∙ connect_idle files ∙ sym e

  -- The server keeps every promise.
  pub dfs_laws : ServerLaws (dfs_server host) filename time
  dfs_laws = record {
    IsSendable = Sendable host filename time;
    Holds = Holding host filename time;
    Lacks = Lacking host filename time;
    Takes = Taking host filename time;
    Lacks-Takes = Lacking-Taking host filename time;
    put_ack = λ s c chunk k l. (
      put_ack,
      rw l.state (
          ap (λ (r : Option Bytes × Node). r.0)
            (exchange_put host filename time l.files c chunk k)),
      omega arith,
      omega arith,
    );
    put_Holds = Holding-put host filename time q;
    put_keeps_Holds = λ s c chunk d other k ne t h.
        Holding-put_other host filename time q s c chunk d k ne other h;
    put_keeps_Lacks = λ s c chunk d k ne t l. Lacking-put host filename time q s c chunk d k ne l;
    put_keeps_Takes = λ s c chunk d k ne t t'. Taking-put host filename time q s c chunk d k ne t';
    query_held = λ s c chunk k h. (
      size_message host.memory (length chunk),
      ap (λ (r : Option Bytes × Node). r.0) (exchange_found host filename time s c chunk q h),
      length-size_message_pos host.memory (length chunk) k.short_size,
      length-size_message-le host.memory (length chunk),
      size_message_ne host.memory (length chunk) k.short_size,
      atoi-size_message host.memory (length chunk) k.short_size,
      ap (λ (r : Option Bytes × Node). (exchange host ready r.1).0)
            (exchange_found host filename time s c chunk q h)
          ∙ ap (λ (r : Option Bytes × Node). r.0) (exchange_ready host filename time h.files chunk),
    );
    held_keeps = λ s c chunk k h.
        (λ d other h'. rw (after_fetch s c chunk h) h', λ d l. rw (after_fetch s c chunk h) l);
    query_lacks = λ s c chunk k l. (
      ap (λ (r : Option Bytes × Node). r.0) (exchange_missing host filename time s c q l),
      λ d other h. rw (after_miss s c l) h,
      λ d l'. rw (after_miss s c l) l',
    );
    connect_Holds = λ s c chunk h. rw (connect_self h.state) h;
    connect_Lacks = λ s c l. rw (connect_self l.state) l;
  }

  pub IsSendable-intro :
      (c : ℕ) (chunk : Bytes) → Sendable host filename time c chunk → dfs_laws.IsSendable c chunk
  unfolding dfs_laws
  IsSendable-intro c chunk k = k

  pub Lacks-intro :
      (node : Node) (c : ℕ) → Lacking host filename time node c → dfs_laws.Lacks node c
  unfolding dfs_laws
  Lacks-intro node c l = l

  pub Takes-intro : (node : Node) (c : ℕ) → Taking host filename time node c → dfs_laws.Takes node c
  unfolding dfs_laws
  Takes-intro node c t = t

  pub Lacks-elim : (node : Node) (c : ℕ) → dfs_laws.Lacks node c → Lacking host filename time node c
  unfolding dfs_laws
  Lacks-elim node c l = l

  pub Holds-elim :
      (node : Node) (c : ℕ) (chunk : Bytes)
      → dfs_laws.Holds node c chunk
      → Holding host filename time node c chunk
  unfolding dfs_laws
  Holds-elim node c chunk h = h
