-- ===== src/Tests/Server.antt =====
-- Rounds of the server of PA4/server/dfs.c, and its reading loop.
use network_systems.Prelude.{
  ℕ, none, ◌≡◌, ◌<◌, refl, true, [], ◌∷◌, ◌++◌, some, arith, length, join,
}
use network_systems.CString.{Bytes, codes, decimal}
use network_systems.Stream.{read_rest, Segments, read_rest, bufsize}
use network_systems.Stream.Laws.{ReadsTo, AllFull, read_rest-ReadsTo}
use network_systems.Dfc.Messages.{put_packet, get_packet}
use network_systems.Dfs.Files.{Files, newest}
use network_systems.Dfs.Request.{Result, ok, err, hang, is_done}
use network_systems.Dfs.Service.{Server, again, closed, round, service_request}
use network_systems.Dfs.Service.Put.{IsPutRequest, round-put_packet, stored}
use network_systems.Dfs.Service.Get.{IsGetRequest}
use network_systems.Dfs.Service.Ends.{service_request_ends}
use network_systems.Dfs.Service.Breaks.{round-put_packet_marker, round-put_packet_hangs}
use network_systems.Tests.Common.{host, shell, memory, file_name, file_name-IsPlainName}

abbrev server : Files → Segments → Server
server files inbound = record {
  dir = host.dir;
  files = files;
  readable = true;
  inbound = inbound;
  outbound = [];
}

-- Two segments with five bytes.
abbrev two : Segments
two = codes "abc" ∷ codes "de" ∷ []

read_rest-ReadsTo_example : ReadsTo (read_rest 5 4 0 two) 4 (join two)
read_rest-ReadsTo_example =
    read_rest-ReadsTo 5 4 0 two (omega arith, (omega arith, tt)) (omega arith) (omega arith)

-- The first two bytes of a chunk of four.
put_request : IsPutRequest host.dir file_name b'1' 4 7 (codes "ab")
unfolding is_done decimal
put_request = record {
  name = file_name-IsPlainName;
  digit = refl;
  fits = omega arith;
  short_time = omega arith;
  path_fits = omega arith;
  no_marker = refl;
}

round-put_packet_example :
    (rest : Segments) × (round shell memory
        (server [] (put_packet file_name b'1' 4 7 (codes "ab") ∷ codes "cd" ∷ []))
      ≡ ok (
          again (
            stored
              (server [] (put_packet file_name b'1' 4 7 (codes "ab") ∷ codes "cd" ∷ []))
              file_name
              b'1'
              7
              (codes "abcd")
              rest)))
    × (join rest ≡ [])
    × AllFull rest
round-put_packet_example =
    round-put_packet shell memory
      (server [] (put_packet file_name b'1' 4 7 (codes "ab") ∷ codes "cd" ∷ [])) file_name b'1' 4 7
      (codes "ab") (codes "cd" ∷ []) put_request refl (omega arith, tt) (omega arith)

round-put_packet_hangs_example :
    (round shell memory (server [] (put_packet file_name b'1' 4 7 (codes "ab") ∷ codes "c" ∷ []))
      ≡ err hang)
    × ((fuel : ℕ) → read_rest fuel 2 0 (codes "c" ∷ []) ≡ none)
round-put_packet_hangs_example =
    round-put_packet_hangs shell memory
      (server [] (put_packet file_name b'1' 4 7 (codes "ab") ∷ codes "c" ∷ [])) file_name b'1' 4 7
      (codes "ab") (codes "c" ∷ []) put_request refl (omega arith, tt) (omega arith)

-- A chunk that speaks of the client's marker.
abbrev marked : Bytes
marked = put_packet file_name b'1' 12 7 (codes "a " ++ (codes "put done" ++ codes ".\n"))

length-marked : length marked < bufsize
unfolding decimal
length-marked = omega arith

round-put_packet_marker_example :
    round shell memory (server [] (marked ∷ [])) ≡ ok (closed (server [] []))
round-put_packet_marker_example =
    round-put_packet_marker shell memory (server [] (marked ∷ [])) file_name b'1' 12 7 (codes "a ")
      (codes ".\n") [] file_name-IsPlainName refl refl length-marked refl

get_request : IsGetRequest host.dir file_name b'1' []
unfolding is_done
get_request = record {
  name = file_name-IsPlainName;
  digit = refl;
  whole = omega arith;
  command_fits = omega arith;
  no_marker = refl;
}

abbrev get_segments : Segments
get_segments = get_packet file_name b'1' (0 ∷ []) ∷ codes "Ready" ∷ []

abbrev one_file : Files
one_file = (codes "f-1-7", codes "abcd") ∷ []

newest-one_file : newest shell (codes "f-1") (codes "f-1-7" ∷ []) ≡ codes "f-1-7"
unfolding newest
newest-one_file = refl

newest_none : newest shell (codes "f-1") [] ≡ []
unfolding newest
newest_none = refl

service_request_ends_example :
    (r : Result Server) × (service_request 50 shell
        (λ i. memory)
        (server one_file (codes "ls" ∷ codes "ls done" ∷ []))
      ≡ some r)
service_request_ends_example =
    service_request_ends 50 shell (λ i. memory)
      (server one_file (codes "ls" ∷ codes "ls done" ∷ [])) (omega arith, (omega arith, tt))
      (omega arith)
