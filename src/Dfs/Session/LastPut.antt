-- ===== src/Dfs/Session/LastPut.antt =====
-- What a get of PA4/client/dfc.c finds after any sessions with four servers of PA4/server/dfs.c.
use network_systems.Prelude.{ℕ, ◌<◌, ◌≡◌, Bool, true, some}
use network_systems.CString.{Bytes}
use network_systems.Stream.{Segments}
use network_systems.Dfc.Network.{Client}
use network_systems.Dfc.Put.{put_file, running}
use network_systems.Dfc.Get.{get_file}
use network_systems.Dfc.Exchange.{IsTransport}
use network_systems.Dfc.Shelf.Placed.{UpAll}
use network_systems.Dfc.RoundTrip.{new_session, OneOfTwo}
use network_systems.Dfs.Node.{Host, dfs_server}
use network_systems.Dfs.Session.Versions.{
  IsVersion, IsNewer, IsTransitive, History, first, replaced, fetched, Kept, Kept-put, Kept-get,
  empty_client, empty_client-Awaits, new_session-Awaits,
}

module _ {host : Host} {filename : Bytes} {x : ℕ} {cut : Bytes → Segments} (net : IsTransport cut)
    (h : x < 4) (trans : IsTransitive host) where
  History-Kept :
      {c : Client (dfs_server host)} {time : ℕ} {file : Bytes}
      → History host filename x cut c time file
      → Kept host filename x net h c time file
  History-Kept (first time file live c up v ran) =
      let (c', ran', k) =
        Kept-put host filename x net h time file v live (empty_client host live) up
          (empty_client-Awaits host filename x net h time file v live) in
      let same : c' ≡ c = cc (ran, ran') in rw same at k
  History-Kept (replaced time later file new live c c₁ before up v newer ran) =
      let (c', ran', k) = Kept-put host filename x net h later new v live (new_session live c) up (
        new_session-Awaits host filename x net h time later file new v live c trans newer
          (History-Kept before)) in
      let same : c' ≡ c₁ = cc (ran, ran') in rw same at k
  History-Kept (fetched time file live unset c c₁ success written before two got) =
      let (c', got', k) =
        Kept-get host filename x net h time file live unset c two (History-Kept before) in
      let same : c' ≡ c₁ = cc (got, got') in rw same at k

  -- After any number of puts and gets, each in a session of its own, the puts at later and later
  -- times and with all four servers up, a get gives the file of the last put, byte for byte, if one
  -- of any two neighbouring servers is up then. The servers begin with empty directories, and each
  -- file is at least four bytes. It is relied on that `sort -r` is an order that puts the entries
  -- of a later time first, and, as for one put, on grep, on requests in one segment, and on chunks
  -- that have no marker in the first segment that comes of them.
  pub get_file-History :
      {c : Client (dfs_server host)} {time : ℕ} {file : Bytes} (live unset : ℕ → Bool)
      → History host filename x cut c time file
      → OneOfTwo live
      → (c' : Client (dfs_server host)) × (get_file cut filename unset (new_session live c)
          ≡ some (record { success = true; written = file; client = c' }))
  get_file-History {c} {time} {file} live unset past two =
      let (c', got, k) =
        Kept-get host filename x net h time file live unset c two (History-Kept past) in
      (c', got)

  -- After any such sessions a put of a later version, with all four servers up, comes to its end.
  pub put_file-History :
      {c : Client (dfs_server host)} {time : ℕ} {file : Bytes} (later : ℕ) (new : Bytes)
      (live : ℕ → Bool)
      → History host filename x cut c time file
      → UpAll live
      → IsVersion host filename later new
      → IsNewer host filename time later
      → (c' : Client (dfs_server host)) × (put_file cut filename later x new (new_session live c)
          ≡ running c')
  put_file-History {c} {time} {file} later new live past up v newer =
      let (c', ran, k) = Kept-put host filename x net h later new v live (new_session live c) up (
        new_session-Awaits host filename x net h time later file new v live c trans newer
          (History-Kept past)) in
      (c', ran)
