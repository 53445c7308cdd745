-- ===== src/Tests/Config.antt =====
-- A configuration file with four servers, as PA4/client/dfc.c reads it.
use network_systems.Prelude.{
  ◌^◌, ℕ, ◌≡◌, refl, Bool, true, false, some, List, [], ◌∷◌, arith, not, ◌==◌, ◌<◌, length,
}
use network_systems.CString.{Bytes, codes, avoids, decimal}
use network_systems.Machine.{ok}
use network_systems.Dfc.Config.{Net, read_conf}
use network_systems.Dfc.Config.Servers.{Listed, IsListed, entry, conf_text, read_conf-conf_text}

-- All hosts are local; the second port is closed.
abbrev closed_port : Bytes → ℕ → Bool
closed_port address port = not (port == 10002)

abbrev local_net : Net
local_net = record { hosts = λ host. some (codes "::1"); accepts = closed_port }

abbrev server : Bytes → ℕ → Listed
server title port = record {
  title = title;
  host = codes "localhost";
  port = port;
  address = codes "::1";
}

abbrev servers : List Listed
servers =
    server (codes "server dfs1") 10001
    ∷ server (codes "server dfs2") 10002
    ∷ server (codes "server dfs3") 10003
    ∷ server (codes "server dfs4") 10004
    ∷ []

IsListed-server :
    (title : Bytes) (port : ℕ)
    → avoids (0 ∷ 10 ∷ 58 ∷ []) title ≡ true
    → length (entry (server title port)) < 255
    → port < 2 ^ 16
    → IsListed local_net (server title port)
IsListed-server title port h short range = record {
  title_avoids = h;
  host_avoids = refl;
  host_ne_nil = λ e. absurd (cc e);
  short = short;
  known = refl;
  is_port = range;
}

read_conf-conf_text_example :
    read_conf local_net [] (some (conf_text servers)) ≡ ok (some (true ∷ false ∷ true ∷ true ∷ []))
unfolding decimal
read_conf-conf_text_example =
    read_conf-conf_text local_net [] servers
      (
        IsListed-server (codes "server dfs1") 10001 refl (omega arith) (omega arith),
        (
          IsListed-server (codes "server dfs2") 10002 refl (omega arith) (omega arith),
          (
            IsListed-server (codes "server dfs3") 10003 refl (omega arith) (omega arith),
            (IsListed-server (codes "server dfs4") 10004 refl (omega arith) (omega arith), tt),
          ),
        ),
      )
      refl
