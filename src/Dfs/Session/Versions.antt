-- ===== src/Dfs/Session/Versions.antt =====
-- Sessions of PA4/client/dfc.c, one after the other, with four servers of PA4/server/dfs.c: puts of
-- newer and newer versions of a file, and gets between them.
use network_systems.Prelude.{ℕ, ◌<◌, ◌≤◌, ◌≡◌, refl, Bool, true, false, some, [], length}
use network_systems.CString.{Bytes}
use network_systems.Stream.{Segments}
use network_systems.Dfc.Network.{Client}
use network_systems.Dfc.Put.{put_file, running, split}
use network_systems.Dfc.Get.{get_file}
use network_systems.Dfc.Exchange.{IsTransport}
use network_systems.Dfc.Shelf.{IsChunk, AllSendable, OpenSlot, Slot}
use network_systems.Dfc.Shelf.Placed.{Opened, Filled, UpAll, no_shelf}
use network_systems.Dfc.Split.{part_of}
use network_systems.Dfc.Placement.{table, put_file-replaced}
use network_systems.Dfc.RoundTrip.{get_file-Stock, Stock-new_session, new_session, OneOfTwo}
use network_systems.Dfs.Files.Newest.{Above}
use network_systems.Dfs.Node.{Host, Node, idle, dfs_server}
use network_systems.Dfs.Node.Requests.{Serves, Sendable, name}
use network_systems.Dfs.Node.Puts.{Holding-Taking, Lacking-later}
use network_systems.Dfs.Node.Laws.{
  dfs_laws, IsSendable-intro, Lacks-intro, Takes-intro, Lacks-elim, Holds-elim,
}

-- A file that can be put at a time: at least four bytes, in chunks that arrive whole.
pub record IsVersion (host : Host) (filename : Bytes) (time : ℕ) (file : Bytes) : Type 0 where
  pub serves : Serves host filename time
  pub sendable : (c : ℕ) → IsChunk c → Sendable host filename time c (part_of (split file) c)
  pub long : 4 ≤ length file

-- `sort -r` puts the entries of the later time above those of the earlier one.
abbrev pub IsNewer : Host → Bytes → ℕ → ℕ → Type 0
IsNewer host filename time later =
    (c : ℕ) → IsChunk c → Above host.shell (name host filename later c) (name host filename time c)

-- `sort -r` is an order.
abbrev pub IsTransitive : Host → Type 0
IsTransitive host =
    (x y z : Bytes) → Above host.shell x y → Above host.shell y z → Above host.shell x z

-- A client whose servers have empty directories.
abbrev pub empty_client : (host : Host) → (ℕ → Bool) → Client (dfs_server host)
empty_client host live = record {
  nodes = λ d. idle [] [];
  streams = λ d. [];
  closed = λ d. false;
  live = live;
}

module _ (host : Host) (filename : Bytes) (x : ℕ) (cut : Bytes → Segments) where
  -- The sessions so far: `History c time file` ends in the client c, and the last put was of `file`
  -- at `time`. Each put needs all four servers, each get one of any two neighbours.
  pub data History : Client (dfs_server host) → ℕ → Bytes → Type 0 where
    first :
        (time : ℕ) (file : Bytes) (live : ℕ → Bool) (c : Client (dfs_server host))
        → UpAll live
        → IsVersion host filename time file
        → put_file cut filename time x file (empty_client host live) ≡ running c
        → History c time file
    replaced :
        (time later : ℕ) (file new : Bytes) (live : ℕ → Bool) (c c' : Client (dfs_server host))
        → History c time file
        → UpAll live
        → IsVersion host filename later new
        → IsNewer host filename time later
        → put_file cut filename later x new (new_session live c) ≡ running c'
        → History c' later new
    fetched :
        (time : ℕ) (file : Bytes) (live unset : ℕ → Bool) (c c' : Client (dfs_server host))
        (success : Bool) (written : Bytes)
        → History c time file
        → OneOfTwo live
        → get_file cut filename unset (new_session live c)
          ≡ some (record { success = success; written = written; client = c' })
        → History c' time file

module _ (host : Host) (filename : Bytes) (time : ℕ) (file : Bytes)
    (v : IsVersion host filename time file) where
  pub all_sendable : AllSendable (dfs_laws host filename time v.serves) (part_of (split file))
  all_sendable c is =
      IsSendable-intro host filename time v.serves c (part_of (split file) c) (v.sendable c is)

  module _ {cut : Bytes → Segments} (net : IsTransport cut) where
    -- The servers have this version, placed by x.
    abbrev pub Has : ℕ → Client (dfs_server host) → (ℕ → Bool) → Type 0
    Has x c live =
        Filled (dfs_laws host filename time v.serves) (part_of (split file)) all_sendable net c
          (table x) live

    -- The servers have older versions, placed by x, or nothing.
    abbrev pub Awaits : ℕ → Client (dfs_server host) → (ℕ → Bool) → Type 0
    Awaits x c live =
        Opened (dfs_laws host filename time v.serves) (part_of (split file)) all_sendable net
          (table x) c no_shelf live

module _ (host : Host) (filename : Bytes) (x : ℕ) {cut : Bytes → Segments} (net : IsTransport cut)
    (h : x < 4) where
  -- The last version is there, in the client that its sessions leave.
  pub record Kept (c : Client (dfs_server host)) (time : ℕ) (file : Bytes) : Type 0 where
    pub version : IsVersion host filename time file
    pub live : ℕ → Bool
    pub has : Has host filename time file version net x c live

  pub Kept-put :
      (time : ℕ) (file : Bytes) (v : IsVersion host filename time file) (live : ℕ → Bool)
      (c : Client (dfs_server host))
      → UpAll live
      → Awaits host filename time file v net x c live
      → (c' : Client (dfs_server host)) × (put_file cut filename time x file c ≡ running c')
        × Kept c' time file
  Kept-put time file v live c up f =
      let (c', ran, f') =
        put_file-replaced (dfs_laws host filename time v.serves) file
          (all_sendable host filename time file v) net x c live h up f in
      (c', ran, record { version = v; live = live; has = f' })

  pub Kept-get :
      (time : ℕ) (file : Bytes) (live unset : ℕ → Bool) (c : Client (dfs_server host))
      → OneOfTwo live
      → Kept c time file
      → (c' : Client (dfs_server host)) × (get_file cut filename unset (new_session live c)
          ≡ some (record { success = true; written = file; client = c' }))
        × Kept c' time file
  Kept-get time file live unset c two k =
      let laws = dfs_laws host filename time k.version.serves in
      let all = all_sendable host filename time file k.version in
      let (c', got, f') =
        get_file-Stock laws file all net x (new_session live c) live unset h k.version.long
          (Stock-new_session laws file all net c (table x) k.live live k.has) two in
      (c', got, record { version = k.version; live = live; has = f' })

  pub empty_client-Awaits :
      (time : ℕ) (file : Bytes) (v : IsVersion host filename time file) (live : ℕ → Bool)
      → Awaits host filename time file v net x (empty_client host live) live
  empty_client-Awaits time file v live = record {
    stocked = λ d c is. open_slot (table x d c) c is;
    lives = refl;
    quiet = λ d. refl;
  }
    where
      lacks : (c : ℕ) → IsChunk c → (dfs_laws host filename time v.serves).Lacks (idle [] []) c
      lacks c is =
          Lacks-intro host filename time v.serves (idle [] []) c
            (record { files = []; state = refl; no_match = tt; is_chunk = is })

      open_slot :
          (p : Bool) (c : ℕ)
          → IsChunk c
          → OpenSlot
              (dfs_laws host filename time v.serves)
              (part_of (split file))
              false
              p
              (idle [] [])
              c
      open_slot true c is =
          (dfs_laws host filename time v.serves).Lacks-Takes (idle [] []) c (lacks c is)
      open_slot false c is = lacks c is

  -- In a new session the last version is an older one to a put at a later time.
  pub new_session-Awaits :
      (time later : ℕ) (file new : Bytes) (v : IsVersion host filename later new) (live : ℕ → Bool)
      (c : Client (dfs_server host))
      → IsTransitive host
      → IsNewer host filename time later
      → Kept c time file
      → Awaits host filename later new v net x (new_session live c) live
  new_session-Awaits time later file new v live c trans newer k = record {
    stocked = λ d a is. renewed (table x d a) (client.nodes d) a is (f.stocked d a is);
    lives = f.lives;
    quiet = f.quiet;
  }
    where
      client : Client (dfs_server host)
      client = new_session live c

      f : Has host filename time file k.version net x (new_session live c) live
      f =
          Stock-new_session (dfs_laws host filename time k.version.serves) file
            (all_sendable host filename time file k.version) net c (table x) k.live live k.has

      renewed :
          (b : Bool) (s : Node) (a : ℕ)
          → IsChunk a
          → Slot (dfs_laws host filename time k.version.serves) (part_of (split file)) b s a
          → OpenSlot (dfs_laws host filename later v.serves) (part_of (split new)) false b s a
      renewed true s a is held = Takes-intro host filename later v.serves s a (
          Holding-Taking host filename time later s a (part_of (split file) a) trans (newer a is)
            (Holds-elim host filename time k.version.serves s a _ held))
      renewed false s a is lacks = Lacks-intro host filename later v.serves s a (
          Lacking-later host filename time later s a
            (Lacks-elim host filename time k.version.serves s a lacks))
