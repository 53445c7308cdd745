-- ===== src/Proxy/Hash/Laws.antt =====
-- What the hash of the proxy is, and when two names share it.
use network_systems.Prelude.{
  ℕ, ◌+◌, ◌*◌, ◌%◌, ◌^◌, ◌<◌, ◌≡◌, refl, List, [], ◌∷◌, ◌++◌, arith, map, ltb, if◌then◌else◌,
}
use network_systems.CString.{Bytes}
use network_systems.Proxy.Hash.{hash_step, hash_loop, md5_generator}

-- The number with the given digits in base 33 behind the start `h`, without a bound.
unfoldable pub horner : ℕ → List ℕ → ℕ
horner h [] = h
horner h (d ∷ ds) = horner (h * 33 + d) ds

-- What the sign of a char takes from a byte: a char is negative from 128 on.
unfoldable pub sign_part : ℕ → ℕ
sign_part c = if ltb c 128 then 0 else 256

step_mod :
    (h k m c : ℕ)
    → (h + m) % 2 ^ 64 ≡ k % 2 ^ 64
    → (hash_step h c + (m * 33 + sign_part c)) % 2 ^ 64 ≡ (k * 33 + c) % 2 ^ 64
unfolding hash_step sign_part
step_mod h k m c e = ground arith

loop-horner :
    (h k m : ℕ) (s : Bytes)
    → (h + m) % 2 ^ 64 ≡ k % 2 ^ 64
    → (hash_loop h s + horner m (map sign_part s)) % 2 ^ 64 ≡ horner k s % 2 ^ 64
unfolding hash_loop horner
loop-horner h k m [] e = e
loop-horner h k m (c ∷ s) e =
    loop-horner (hash_step h c) (k * 33 + c) (m * 33 + sign_part c) s (step_mod h k m c e)

-- The loop that wraps around at 2^64 in every step computes, for any string, and modulo 2^64, the
-- number whose digits in base 33 are the start 5381 and the chars, that is the bytes with 256 taken
-- away from each one from 128 on: with the number of these 256s added it is that of the bytes.
pub hash_loop-horner :
    (s : Bytes) → (hash_loop 5381 s + horner 0 (map sign_part s)) % 2 ^ 64 ≡ horner 5381 s % 2 ^ 64
hash_loop-horner s = loop-horner 5381 5381 0 s refl

hash_loop-append : (h : ℕ) (s t : Bytes) → hash_loop h (s ++ t) ≡ hash_loop (hash_loop h s) t
unfolding hash_loop
hash_loop-append h [] t = refl
hash_loop-append h (c ∷ s) t = hash_loop-append (hash_step h c) s t

two_steps :
    (h c d : ℕ)
    → c < 127
    → d < 95
    → hash_step (hash_step h c) (d + 33) ≡ hash_step (hash_step h (c + 1)) d
unfolding hash_step
two_steps h c d p q = ground arith

-- Two neighbouring bytes c and d + 33 hash like c + 1 and d.
pub md5_generator_collision :
    (front back : Bytes) (c d : ℕ)
    → c < 127
    → d < 95
    → md5_generator (front ++ c ∷ (d + 33) ∷ back) ≡ md5_generator (front ++ (c + 1) ∷ d ∷ back)
unfolding md5_generator hash_loop
md5_generator_collision front back c d p q = rw (
  hash_loop-append 5381 front (c ∷ (d + 33) ∷ back),
  hash_loop-append 5381 front ((c + 1) ∷ d ∷ back),
  two_steps (hash_loop 5381 front) c d p q,
)

loop_bound : (h : ℕ) (s : Bytes) → h < 2 ^ 64 → hash_loop h s < 2 ^ 64
unfolding hash_loop
loop_bound h [] lt = lt
loop_bound h (c ∷ s) lt = loop_bound (hash_step h c) s (unfold hash_step in omega arith)

-- The hash is an unsigned long.
pub hash_loop_bound : (s : Bytes) → hash_loop 5381 s < 2 ^ 64
hash_loop_bound s = loop_bound 5381 s (omega arith)
