-- ===== src/Proxy/Hash.antt =====
-- `md5_generator` of PA3/proxy.c, which is the hash djb2 in an unsigned long, printed in decimal.
use network_systems.Prelude.{ℕ, ◌+◌, ◌-◌, ◌*◌, ◌%◌, ◌^◌, [], ◌∷◌, ltb, if◌then◌else◌}
use network_systems.CString.{Bytes, decimal}
pub mod Laws

-- c = *original++: a char is signed, and an int that is added to an unsigned long is converted.
abbrev pub char_to_ulong : ℕ → ℕ
char_to_ulong c = if ltb c 128 then c else 2 ^ 64 - 256 + c

-- hash = ((hash << 5) + hash) + c, modulo 2^64
unfoldable pub hash_step : ℕ → ℕ → ℕ
hash_step hash c = ((hash * 2 ^ 5) % 2 ^ 64 + hash + char_to_ulong c) % 2 ^ 64

-- The loop over the bytes of the string.
unfoldable pub hash_loop : ℕ → Bytes → ℕ
hash_loop hash [] = hash
hash_loop hash (c ∷ original) = hash_loop (hash_step hash c) original

unfoldable pub md5_generator : Bytes → Bytes
md5_generator original = decimal (hash_loop 5381 original)
