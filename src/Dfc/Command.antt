-- ===== src/Dfc/Command.antt =====
-- The commands put and get of PA4/client/dfc.c over all files of the command line, and the choice
-- of a placement by the MD5 digest of a file's name.
use network_systems.Prelude.{
  ℕ, zero, suc, ◌+◌, ◌-◌, ◌*◌, ◌%◌, ◌≤◌, ◌≡◌, refl, Bool, Option, none, some, List, [], ◌∷◌, ◌++◌,
  arith, if◌then◌else◌, ltb, length, length-append, drop,
}
use network_systems.CString.{Bytes, codes}
use network_systems.Stream.{Segments}
use network_systems.ChunkServer.{ChunkServer}
use network_systems.Dfc.Network.{Client}
use network_systems.Dfc.Put.{Run, running, put_file, ◌then_run◌}
use network_systems.Dfc.Get.{get_file}
use network_systems.Dfc.Listing.{all_servers, send_done}

-- The bytes as one number: two hexadecimal digits each.
abbrev pub hex_value : ℕ → Bytes → ℕ
hex_value v [] = v
hex_value v (b ∷ s) = hex_value (v * 256 + b) s

-- md5_hash behind MD5_Final: the last 16 of the 32 digits, modulo 4.
unfoldable pub md5_hash : Bytes → ℕ
md5_hash digest = hex_value 0 (drop (length digest - 8) digest) % 4

abbrev one_if : Bool → ℕ
one_if b = if b then 1 else 0

module _ {server : ChunkServer} (cut : Bytes → Segments) where
  -- connections_made
  abbrev pub connections : List ℕ → Client server → ℕ
  connections [] c = 0
  connections (d ∷ more) c = one_if (c.live d) + connections more c

  -- The files of a put: one that cannot be opened is skipped. `digest` is the MD5 digest of a name.
  unfoldable pub put_files :
      (Bytes → Bytes) → (Bytes → Option Bytes) → ℕ → List Bytes → Client server → Run server
  put_files digest disk time [] c = running c
  put_files digest disk time (filename ∷ more) c = elim (disk filename) [
    | none ↦ put_files digest disk time more c
    | some file ↦
        put_file cut filename time (md5_hash (digest filename)) file c
        then_run put_files digest disk time more
  ]

  -- A put needs all four servers.
  unfoldable pub put_command :
      (Bytes → Bytes) → (Bytes → Option Bytes) → ℕ → List Bytes → Client server → Run server
  put_command digest disk time filenames c =
      if ltb (connections all_servers c) 4
      then running c
      else put_files digest disk time filenames c then_run λ c'.
          running (send_done cut all_servers (codes "put done") c')

  -- What a get makes of each file: the bytes that were written, or that it was removed.
  unfoldable pub get_files :
      (Bytes → ℕ → Bool)
      → List Bytes
      → Client server
      → Option (List (Bytes × Option Bytes) × Client server)
  get_files unset [] c = some ([], c)
  get_files unset (filename ∷ more) c = elim (get_file cut filename (unset filename) c) [
    | none ↦ none
    | some f ↦ elim (get_files unset more f.client) [
      | none ↦ none
      | some (files, c') ↦ some ((filename, if f.success then some f.written else none) ∷ files, c')
    ]
  ]

  unfoldable pub get_command :
      (Bytes → ℕ → Bool)
      → List Bytes
      → Client server
      → Option (List (Bytes × Option Bytes) × Client server)
  get_command unset filenames c = elim (get_files unset filenames c) [
    | none ↦ none
    | some (files, c') ↦ some (files, send_done cut all_servers (codes "get done") c')
  ]

hex_value-append : (v : ℕ) (s : Bytes) (b : ℕ) → hex_value v (s ++ b ∷ []) ≡ hex_value v s * 256 + b
hex_value-append v [] b = refl
hex_value-append v (c ∷ s) b = hex_value-append (v * 256 + c) s b

drop-append_short : (n : ℕ) (s t : Bytes) → n ≤ length s → drop n (s ++ t) ≡ drop n s ++ t
drop-append_short zero s t h = refl
drop-append_short (suc n) [] t h = absurd (omega arith)
drop-append_short (suc n) (c ∷ s) t h = drop-append_short n s t (omega arith)

-- The placement is chosen by the last two bits of the digest.
pub md5_hash_last : (front : Bytes) (b : ℕ) → length front ≡ 15 → md5_hash (front ++ b ∷ []) ≡ b % 4
unfolding md5_hash
md5_hash_last front b e =
    let eight : length (front ++ b ∷ []) - 8 ≡ 8 =
      omega (arith, length-append front (b ∷ []), one) in
    rw
      (eight, drop-append_short 8 front (b ∷ []) (omega arith), hex_value-append 0 (drop 8 front) b)
      (omega arith)
  where
    one : length (b ∷ []) ≡ 1
    one = refl
