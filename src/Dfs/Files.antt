-- ===== src/Dfs/Files.antt =====
-- The directory of a server (the global `dir`): its entries' names and contents, and the shell
-- command that PA4/server/dfs.c runs over it. `grep` and the order of `sort` are not the
-- repository's code: they are the fields of `Shell`.
pub mod Laws
pub mod Newest
use network_systems.Prelude.{
  Bool, true, false, List, [], ◌∷◌, ◌++◌, Option, none, some, if◌then◌else◌, ◌≡◌,
}
use network_systems.CString.{Bytes, codes, streq}

abbrev pub Files : Type 0
Files = List (Bytes × Bytes)

-- The external commands: whether `grep pattern` lets a line pass, and whether `sort -r` puts the
-- first line above the second.
pub record Shell : Type 0 where
  pub grep : Bytes → Bytes → Bool
  pub above : Bytes → Bytes → Bool

abbrev pub names : Files → List Bytes
names [] = []
names ((name, content) ∷ files) = name ∷ names files

abbrev pub lookup : Bytes → Files → Option Bytes
lookup name [] = none
lookup name ((n, content) ∷ files) = if streq n name then some content else lookup name files

-- fopen(path, "wb") and the writes up to fclose: the file holds what was written, and only that.
abbrev pub store : Bytes → Bytes → Files → Files
store name content [] = (name, content) ∷ []
store name content ((n, old) ∷ files) =
    let rest = store name content files in
    if streq n name then (n, content) ∷ files else (n, old) ∷ rest

abbrev pub topmost : Shell → Bytes → Bytes → Bytes
topmost sh line [] = line
topmost sh line best = if sh.above best line then best else line

-- The first line of "ls dir | grep pattern | sort -r", which is empty if no line passes.
unfoldable pub newest : Shell → Bytes → List Bytes → Bytes
newest sh pattern [] = []
newest sh pattern (line ∷ lines) =
    let best = newest sh pattern lines in
    if sh.grep pattern line then topmost sh line best else best
