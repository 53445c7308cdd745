-- ===== src/Tests/Session.antt =====
-- A put and a get of the file "f", with the servers of PA4/server/dfs.c.
use network_systems.CString.{codes}
use network_systems.Machine.{ok}
use network_systems.Dfs.Files.{Files}
use network_systems.Dfs.Node.Listing.{list-HasFiles}
use network_systems.Dfc.Listing.{list, send_done, all_servers}
use network_systems.Prelude.{◌∷◌, ℕ, [], ◌≡◌, ◌≤◌, refl, Bool, true, false, some, arith, ◌==◌, not}
use network_systems.Dfc.Network.{Client}
use network_systems.Dfc.Put.{put_file, running}
use network_systems.Dfc.Get.{get_file}
use network_systems.Dfc.Shelf.{Shelf}
use network_systems.Dfc.Placement.{put_file-placed, placed}
use network_systems.Dfc.RoundTrip.{get_file-put_file, new_session}
use network_systems.Dfc.Incomplete.{get_file-BothDown}
use network_systems.Dfs.Node.{idle, dfs_server}
use network_systems.Dfs.Node.Laws.{dfs_laws}
use network_systems.Tests.Common.{
  host, file_name, four_bytes, part, serves, sendable, one_segment, one_segment-IsTransport, client,
  client-Filled,
}

abbrev all_up : ℕ → Bool
all_up d = true

abbrev third_down : ℕ → Bool
third_down d = not (d == 3)

-- The third server is down when the file is got back.
get_file-put_file_example :
    (c₁ c₂ : Client (dfs_server host)) × (put_file one_segment file_name 7 2 four_bytes
        (client all_up)
      ≡ running c₁)
    × (get_file one_segment file_name all_up (new_session third_down c₁)
        ≡ some (record { success = true; written = four_bytes; client = c₂ }))
get_file-put_file_example =
    get_file-put_file (dfs_laws host file_name 7 serves) four_bytes sendable one_segment-IsTransport
      2 (client all_up) all_up third_down all_up (omega arith) (omega arith) (λ d l u. refl)
      (client-Filled all_up) (refl, refl, refl, refl)

abbrev only_first : ℕ → Bool
only_first d = d == 1

get_file-BothDown_example :
    (c₁ c₂ : Client (dfs_server host)) × (put_file one_segment file_name 7 2 four_bytes
        (client all_up)
      ≡ running c₁)
    × (get_file one_segment file_name all_up (new_session only_first c₁)
        ≡ some (record { success = false; written = []; client = c₂ }))
get_file-BothDown_example =
    get_file-BothDown (dfs_laws host file_name 7 serves) four_bytes sendable one_segment-IsTransport
      2 (client all_up) all_up only_first all_up (omega arith) (omega arith) (λ d l u. refl)
      (client-Filled all_up) refl refl

put_file-placed_example :
    (c₁ : Client (dfs_server host)) × (put_file one_segment file_name 7 2 four_bytes (client all_up)
      ≡ running c₁)
    × ((d : ℕ)
        → 1 ≤ d
        → d ≤ 4
        → Shelf (dfs_laws host file_name 7 serves) part (c₁.nodes d) (placed 2 d))
put_file-placed_example =
    put_file-placed (dfs_laws host file_name 7 serves) four_bytes sendable one_segment-IsTransport 2
      (client all_up) all_up (omega arith) (λ d l u. refl) (client-Filled all_up)

abbrev four_servers : Client (dfs_server host)
four_servers = record {
  nodes = λ d. idle [] [];
  streams = λ d. [];
  closed = λ d. false;
  live = all_up;
}

abbrev one_file : ℕ → Files
one_file d = (codes "f-1-7", codes "a") ∷ []

abbrev third_missing : Client (dfs_server host)
third_missing = record {
  nodes = λ d. idle (one_file d) [];
  streams = λ d. [];
  closed = λ d. false;
  live = third_down;
}

list-HasFiles_example :
    (c' : Client (dfs_server host)) × (list one_segment third_missing
      ≡ ok (send_done one_segment all_servers (codes "ls done") c', codes "f-1-7\nf-1-7\nf-1-7\n"))
list-HasFiles_example =
    list-HasFiles host one_segment-IsTransport one_file third_missing (λ d. refl)
      (λ d up. (refl, omega arith, omega arith))
