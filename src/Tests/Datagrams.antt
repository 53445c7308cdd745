-- ===== src/Tests/Datagrams.antt =====
-- Files over the datagrams of PA1.
use network_systems.Prelude.{◌≡◌, true, [], ◌∷◌, some, none, arith}
use network_systems.Uftp.Server.{Files, Scene, write_file}
use network_systems.CString.{codes}
use network_systems.Machine.{ok}
use network_systems.Uftp.Send.{put_client}
use network_systems.Uftp.Receive.{receive_file}
use network_systems.Uftp.Loss.{receive_file-join}

-- Two of the datagrams of a file of 20000 bytes.
receive_file-join_example : receive_file 20000 (codes "abc" ∷ codes "de" ∷ []) ≡ ok (codes "abcde")
receive_file-join_example =
    receive_file-join 20000 (codes "abc" ∷ codes "de" ∷ [])
      (omega arith, omega arith, (omega arith, omega arith, tt)) (omega arith) (omega arith)

abbrev scene : Scene
scene = record {
  removes = λ path. true;
  listing = codes "total 0\n";
  later = put_client 6 (some (codes "hello"));
  acks = 1;
  stack = [];
  fuel = 6;
  spare = 12;
}

abbrev no_files : Files
no_files = λ path. none

abbrev one_file : Files
one_file = write_file (codes "d/a.txt") (codes "hello") no_files
