-- ===== src/Uftp/Client/Fetch.antt =====
-- A user of PA1 gets a file: the line, the request, the server's round and the client's.
use network_systems.Prelude.{◌++◌}
use network_systems.CString.{Bytes, codes}
use network_systems.Uftp.Server.{Files}
use network_systems.Uftp.Server.Files.{request}

-- The line that the user types.
abbrev pub get_line : Bytes → Bytes
get_line path = request (codes "get") path ++ codes "\n"
