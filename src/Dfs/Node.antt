-- ===== src/Dfs/Node.antt =====
-- The server of PA4/server/dfs.c as its client sees it: rounds of `service_request`, one for each
-- message, fill the interface `ChunkServer`.
pub mod Requests
pub mod Puts
pub mod Laws
pub mod Listing
use network_systems.Prelude.{ℕ, ◌≡◌, Bool, true, false, List, [], ◌∷◌, ◌++◌, Option, none, some}
use network_systems.CString.{Bytes}
use network_systems.Stream.{Segments}
use network_systems.ChunkServer.{ChunkServer}
use network_systems.Dfs.Files.{Files, Shell}
use network_systems.Dfs.Request.{Result, ok, err, Memory}
use network_systems.Dfs.Service.{Server, Round, again, closed, round}

-- What stays the same while a server runs: its directory's path, the shell, the memory that its
-- rounds find, and how the network cuts the client's messages.
pub record Host : Type 0 where
  pub dir : Bytes
  pub shell : Shell
  pub memory : Memory
  pub cut : Bytes → Segments

-- A connection that waits for a request, or for the message after the size of a chunk; a
-- connection that is closed, and a process that has broken.
pub data Node : Type 0 where
  idle : Files → Segments → Node
  waiting : Files → Segments → Bytes → Node
  ended : Files → Node
  broken : Node

abbrev server_of : Host → Files → Segments → Server
server_of host files inbound = record {
  dir = host.dir;
  files = files;
  readable = true;
  inbound = inbound;
  outbound = [];
}

-- What was sent in a round. A get sends the chunk after one more `recv`: it is kept back till then.
abbrev replies : Server → List Bytes → Option Bytes × Node
replies s [] = (none, idle s.files s.inbound)
replies s (reply ∷ []) = (some reply, idle s.files s.inbound)
replies s (reply ∷ content ∷ more) = (some reply, waiting s.files s.inbound content)

abbrev after_round : Result Round → Option Bytes × Node
after_round (ok (again s)) = replies s s.outbound
after_round (ok (closed s)) = (none, ended s.files)
after_round (err fault) = (none, broken)

unfoldable pub exchange : Host → Bytes → Node → Option Bytes × Node
exchange host message (idle files inbound) =
    after_round (round host.shell host.memory (server_of host files (inbound ++ host.cut message)))
exchange host message (waiting files inbound content) = (some content, idle files inbound)
exchange host message (ended files) = (none, ended files)
exchange host message broken = (none, broken)

unfoldable pub connect : Node → Node
connect (idle files inbound) = idle files []
connect (waiting files inbound content) = idle files []
connect (ended files) = idle files []
connect broken = broken

abbrev pub dfs_server : Host → ChunkServer
dfs_server host = record { State = Node; connect = connect; exchange = exchange host }
