-- ===== src/Dfs/Node/Listing.antt =====
-- A server of PA4/server/dfs.c answers the message "list", and a list over four such servers.
use network_systems.Prelude.{
  Option, ℕ, ◌<◌, ◌≤◌, ◌≡◌, refl, ap, true, some, List, [], ◌∷◌, arith, length, lt→ltb,
}
use network_systems.CString.{Bytes, codes}
use network_systems.Machine.{ok}
use network_systems.Stream.{bufsize, recv}
use network_systems.Dfc.Network.{Client}
use network_systems.Dfc.Exchange.{IsTransport, IsQuiet}
use network_systems.Dfc.Listing.{
  list, list_message, Lists, all_servers, live_texts, send_done, list-live_texts,
}
use network_systems.Dfs.Files.{Files}
use network_systems.Dfs.Request.{buf_text, is_done, read_header}
use network_systems.Dfs.Service.{round, perform, ls, listing, readdir, send, again}
use network_systems.Dfs.Node.{Host, Node, idle, exchange, dfs_server, server_of}

-- What a list of the server's directory gives.
abbrev pub files_text : Files → Bytes
files_text files = listing (readdir files)

round-list_message :
    (host : Host) (files : Files)
    → host.cut list_message ≡ list_message ∷ []
    → length (files_text files) < bufsize
    → round host.shell host.memory (server_of host files (host.cut list_message))
      ≡ ok (again (send (files_text files) (server_of host files [])))
unfolding round perform ls buf_text is_done read_header recv
round-list_message host files whole short =
    rw (whole, lt→ltb (length (files_text files)) bufsize short) refl

exchange-list_message :
    (host : Host) (files : Files)
    → host.cut list_message ≡ list_message ∷ []
    → length (files_text files) < bufsize
    → exchange host list_message (idle files []) ≡ (some (files_text files), idle files [])
unfolding exchange
exchange-list_message host files whole short = rw (round-list_message host files whole short) refl

-- What is asked of the live servers: they wait for a request, and have 1 to 1024 bytes of names.
abbrev pub HasFiles : (host : Host) → (ℕ → Files) → Client (dfs_server host) → Type 0
HasFiles host files c =
    (d : ℕ)
    → c.live d ≡ true
    → (c.nodes d ≡ idle (files d) [])
      × (0 < length (files_text (files d)))
      × (length (files_text (files d)) ≤ 1024)

Lists-HasFiles :
    (host : Host) (net : IsTransport host.cut) (files : ℕ → Files) (ds : List ℕ)
    (c : Client (dfs_server host))
    → HasFiles host files c
    → Lists (λ d. files_text (files d)) ds c
Lists-HasFiles host net files [] c h = tt
Lists-HasFiles host net files (d ∷ ds) c h = (
  λ up.
      let (state, some_bytes, short) = h d up in
      (
        rw state (
            ap (λ (r : Option Bytes × Node). r.0)
              (exchange-list_message host (files d)
                (net.whole list_message (omega arith) (omega arith)) (omega arith))),
        some_bytes,
        short,
      ),
  Lists-HasFiles host net files ds c h,
)

-- A list over four servers of dfs.c writes to dfs_list the names of all entries of the live
-- servers, each with a newline, server by server, and then ends the sessions. Each live server
-- waits for a request and has 1 to 1024 bytes of names, and the network loses nothing.
pub list-HasFiles :
    (host : Host) (net : IsTransport host.cut) (files : ℕ → Files) (c : Client (dfs_server host))
    → IsQuiet c
    → HasFiles host files c
    → (c' : Client (dfs_server host)) × (list host.cut c
        ≡ ok (
          send_done host.cut all_servers (codes "ls done") c',
          live_texts (λ d. files_text (files d)) c.live all_servers,
        ))
list-HasFiles host net files c quiet h =
    list-live_texts net (λ d. files_text (files d)) c quiet
      (Lists-HasFiles host net files all_servers c h)
