-- ===== src/Uftp/Server/Files.antt =====
-- A file on the server of PA1: put, fetched, deleted.
use network_systems.Prelude.{
  ◌<◌, ◌≡◌, ◌≢◌, ◌∙◌, refl, ap, true, false, Option, some, [], ◌∷◌, ◌++◌, arith, length, lt→ltb,
  take_all, length-append,
}
use network_systems.CString.{
  Bytes, codes, cstr_self, strtok_whole, strtok_token, avoids, elem, elem-append,
}
use network_systems.Stream.{bufsize}
use network_systems.Machine.{ok}
use network_systems.Uftp.Send.{get_server}
use network_systems.Uftp.Receive.{datagram}
use network_systems.Uftp.Server.{Files, Scene, request_text, split_request, perform, serve_datagram}

-- A path that a request can carry.
pub record IsPath (name : Bytes) : Type 0 where
  pub ne_nil : name ≢ []
  pub no_blank : avoids (codes " ") name ≡ true
  pub no_nul : elem 0 name ≡ false
  pub short : length name < 8000

-- A command and its file.
abbrev pub request : Bytes → Bytes → Bytes
request command name = command ++ b' ' ∷ name

-- A command word.
pub record IsCommand (command : Bytes) : Type 0 where
  pub ne_nil : command ≢ []
  pub no_blank : avoids (codes " ") command ≡ true
  pub no_nul : elem 0 command ≡ false
  pub short : length command < 100

pub split_request-request :
    (command name : Bytes)
    → IsCommand command
    → IsPath name
    → split_request (request command name)
      ≡ record { command = some command; file_requested = some name }
unfolding split_request
split_request-request command name c q =
    rw
      (
        strtok_token (codes " ") command b' ' name c.ne_nil c.no_blank refl,
        strtok_whole (codes " ") name q.ne_nil q.no_blank,
      )
      refl

length-request :
    (command name : Bytes)
    → IsCommand command
    → IsPath name
    → length (request command name) < bufsize
length-request command name c q =
    omega (arith, length-append command (b' ' ∷ name), c.short, q.short)

request_text-request :
    (command name : Bytes)
    → IsCommand command
    → IsPath name
    → request_text (datagram (request command name)) ≡ ok (request command name)
request_text-request command name c q =
    let short = length-request command name c q in
    let no_nul : elem 0 (request command name) ≡ false =
      ground (arith, elem-append 0 command (b' ' ∷ name), c.no_nul, q.no_nul) in
    rw
      (
        take_all bufsize (request command name) (omega (arith, short)),
        lt→ltb (length (request command name)) bufsize short,
        cstr_self (request command name) no_nul,
      )
      refl

serve_datagram-request :
    (s : Scene) (command name : Bytes) (files : Files)
    → IsCommand command
    → IsPath name
    → serve_datagram s (request command name) files ≡ perform s command (some name) files
unfolding serve_datagram
serve_datagram-request s command name files c q =
    rw (request_text-request command name c q, split_request-request command name c q) refl

pub get-IsCommand : IsCommand (codes "get")
get-IsCommand = record {
  ne_nil = λ e. omega (arith, ap length e);
  no_blank = refl;
  no_nul = refl;
  short = omega arith;
}

module _ (s : Scene) (name : Bytes) (q : IsPath name) where
  pub serve-get :
      (files : Files) (found : Option Bytes)
      → files name ≡ found
      → serve_datagram s (request (codes "get") name) files
        ≡ ok (get_server s.fuel s.acks found, files)
  unfolding perform
  serve-get files found e =
      serve_datagram-request s (codes "get") name files get-IsCommand q ∙ rw e refl
