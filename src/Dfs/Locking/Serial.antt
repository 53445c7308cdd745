-- ===== src/Dfs/Locking/Serial.antt =====
-- A server of PA4/server/dfs.c that does one put after another: what its directory can be.
use network_systems.Prelude.{◌≡◌, refl, List, [], ◌∷◌, join, Bool-cases, inl, inr}
use network_systems.CString.{Bytes, streq, streq_refl}
use network_systems.Dfs.Files.{Files, store}
use network_systems.Dfs.Locking.{Put, Asked}

-- The directory after whole puts of the list, with the log of them, the last put first.
pub data Serial (puts : List Put) (initial : Files) : List Put → Files → Type 0 where
  no_put : Serial puts initial [] initial
  then_put :
      {log : List Put} {files : Files} {name : Bytes} {pieces : List Bytes}
      → Serial puts initial log files
      → Asked name pieces puts
      → Serial puts initial ((name, pieces) ∷ log) (store name (join pieces) files)

-- The second log goes on from the first.
pub data Extends (log : List Put) : List Put → Type 0 where
  no_more : Extends log log
  one_more : {log' : List Put} {put : Put} → Extends log log' → Extends log (put ∷ log')

pub Extends-trans :
    {log log' log'' : List Put} → Extends log log' → Extends log' log'' → Extends log log''
Extends-trans e no_more = e
Extends-trans e (one_more f) = one_more (Extends-trans e f)

-- The last content of a name is what counts.
pub store-store :
    (name old content : Bytes) (files : Files)
    → store name content (store name old files) ≡ store name content files
store-store name old content [] = rw (streq_refl name) refl
store-store name old content ((n, c) ∷ files) = elim (Bool-cases (streq n name)) [
  | inl same ↦ rw (same, same) refl
  | inr other ↦ rw (other, other, store-store name old content files) refl
]
