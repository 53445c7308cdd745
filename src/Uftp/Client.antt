-- ===== src/Uftp/Client.antt =====
-- The loop of PA1/client/uftp_client-2.c: a line of the user, the request it sends, and what the
-- replies do to the user's files.
use network_systems.Prelude.{
  ℕ, ◌-◌, Bool, true, false, ◌&&◌, ◌||◌, Option, none, some, List, [], ◌∷◌, ◌++◌, ◌==◌,
  if◌then◌else◌, length, take,
}
use network_systems.CString.{Bytes, codes, cstr, streq}
use network_systems.Machine.{Result, ok, err, overflow, ◌>>=◌, deref}
use network_systems.Uftp.Send.{put_client}
use network_systems.Uftp.Receive.{datagram, get_client}
use network_systems.Uftp.Server.{
  Files, Request, split_request, base_name, find_file, write_file, put_replies,
}
pub mod Fetch

-- A line that sends nothing, or a request with its text.
pub data Input : Type 0 where
  ignored : Input
  asks : Bytes → Bytes → Option Bytes → Input

abbrev is_none : Option Bytes → Bool
is_none none = true
is_none (some s) = false

-- get, put and delete without a file.
abbrev pub lacks_file : Bytes → Option Bytes → Bool
lacks_file command file =
    (streq command (codes "get") || streq command (codes "put") || streq command (codes "delete"))
    && is_none file

-- The line, as `fgets` gives it: buf[strlen(buf) - 1] = '\0' is outside of an empty string, and the
-- command is used without a test.
unfoldable pub read_input : Bytes → Result Input
read_input line = if streq line (codes "\n") || streq line (codes " \n") then ok ignored else (do
  text ← if length line == 0 then err overflow else ok (take (length line - 1) line)
  let r = split_request text
  command ← deref r.command
  ok (if lacks_file command r.file_requested then ignored else asks text command r.file_requested))

-- What a round sends, the text of the reply that it prints, the files, and whether the loop goes on.
pub record Round : Type 0 where
  pub sent : List Bytes
  pub shown : Option Bytes
  pub files : Files
  pub goes_on : Bool

-- The text of the first reply; `none` at a timeout.
abbrev pub reply_text : List Bytes → Option Bytes
reply_text [] = none
reply_text (d ∷ ds) = some (cstr (datagram d))

-- The branch for "get": the file is written under the name behind the last slash.
abbrev pub get_branch :
    Bytes → Option Bytes → Option (Result Bytes) → List Bytes → Files → Result Round
get_branch text file none replies files =
    ok (record { sent = text ∷ []; shown = reply_text replies; files = files; goes_on = true })
get_branch text file (some received) replies files = do
  path ← deref file
  content ← received
  ok (record {
    sent = text ∷ put_replies replies;
    shown = none;
    files = write_file (base_name path) content files;
    goes_on = true;
  })

-- The branches by the command, over the datagrams that come. For a put these are the ones behind
-- the acknowledgements.
unfoldable pub ask : ℕ → Bytes → Bytes → Option Bytes → List Bytes → Files → Result Round
ask fuel text command file replies files =
    if streq command (codes "get")
    then get_branch text file (get_client replies) replies files
    else if streq command (codes "put")
    then ok (record {
      sent = text ∷ put_client fuel (find_file files file);
      shown = if is_none (find_file files file) then none else reply_text replies;
      files = files;
      goes_on = true;
    })
    else if streq command (codes "delete") || streq command (codes "ls")
    then ok (record { sent = text ∷ []; shown = reply_text replies; files = files; goes_on = true })
    else if streq command (codes "exit")
    then ok (record {
      sent = text ∷ [];
      shown = reply_text replies;
      files = files;
      goes_on = is_none (reply_text replies);
    })
    else ok (record { sent = text ∷ []; shown = none; files = files; goes_on = true })

abbrev pub ask_input : ℕ → Input → List Bytes → Files → Result Round
ask_input fuel ignored replies files =
    ok (record { sent = []; shown = none; files = files; goes_on = true })
ask_input fuel (asks text command file) replies files = ask fuel text command file replies files

-- One round of the loop.
unfoldable pub client_round : ℕ → Bytes → List Bytes → Files → Result Round
client_round fuel line replies files =
    read_input line >>= λ input. ask_input fuel input replies files
