-- ===== src/Dfs/Session.antt =====
-- The client of PA4/client/dfc.c with four servers of PA4/server/dfs.c behind it.
pub mod Versions
pub mod LastPut
use network_systems.Prelude.{false, ℕ, ◌<◌, ◌≤◌, ◌≡◌, refl, Bool, true, some, [], length}
use network_systems.CString.{Bytes}
use network_systems.Stream.{Segments}
use network_systems.Dfc.Network.{Client}
use network_systems.Dfc.Put.{put_file, running, split}
use network_systems.Dfc.Get.{get_file}
use network_systems.Dfc.Exchange.{IsTransport}
use network_systems.Dfc.Shelf.{IsChunk, AllSendable}
use network_systems.Dfc.Shelf.Placed.{Filled, UpAll, no_shelf}
use network_systems.Dfc.Split.{part_of}
use network_systems.Dfc.RoundTrip.{get_file-put_file, new_session, OneOfTwo}
use network_systems.Dfs.Node.{Host, idle, dfs_server}
use network_systems.Dfs.Node.Requests.{Serves, Sendable}
use network_systems.Dfs.Node.Laws.{dfs_laws, IsSendable-intro, Lacks-intro}

module _ (host : Host) (filename : Bytes) (time : ℕ) (q : Serves host filename time) (file : Bytes)
    (sendable : (c : ℕ) → IsChunk c → Sendable host filename time c (part_of (split file) c))
    {cut : Bytes → Segments} (net : IsTransport cut) where
  all_sendable : AllSendable (dfs_laws host filename time q) (part_of (split file))
  all_sendable c is =
      IsSendable-intro host filename time q c (part_of (split file) c) (sendable c is)

  -- A client whose servers have empty directories and wait for requests.
  abbrev pub first_client : (ℕ → Bool) → Client (dfs_server host)
  first_client live = record {
    nodes = λ d. idle [] [];
    streams = λ d. [];
    closed = λ d. false;
    live = live;
  }

  first_client-Filled :
      (live : ℕ → Bool)
      → Filled
          (dfs_laws host filename time q)
          (part_of (split file))
          all_sendable
          net
          (first_client live)
          no_shelf
          live
  first_client-Filled live = record {
    stocked = λ d c is.
        Lacks-intro host filename time q (idle [] []) c
          (record { files = []; state = refl; no_match = tt; is_chunk = is });
    lives = refl;
    quiet = λ d. refl;
  }

  -- Client and servers together, byte for byte of their protocol: a file of at least four bytes
  -- that was put to four servers with empty directories is got back in a later session, if one of
  -- any two neighbouring servers is up then. It is relied on that grep takes the pattern of a chunk
  -- for the entry of that chunk only, that requests come in one segment, and that no chunk has a
  -- marker in the first segment that comes of it.
  pub get_file-put_file_dfs :
      (x : ℕ) (live live' unset : ℕ → Bool)
      → x < 4
      → 4 ≤ length file
      → UpAll live
      → OneOfTwo live'
      → (c₁ c₂ : Client (dfs_server host)) × (put_file cut filename time x file (first_client live)
          ≡ running c₁)
        × (get_file cut filename unset (new_session live' c₁)
            ≡ some (record { success = true; written = file; client = c₂ }))
  get_file-put_file_dfs x live live' unset h long up two =
      get_file-put_file (dfs_laws host filename time q) file all_sendable net x (first_client live)
        live live' unset h long up (first_client-Filled live) two
