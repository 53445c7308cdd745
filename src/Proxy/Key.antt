-- ===== src/Proxy/Key.antt =====
-- The arrays of the hash of PA3/proxy.c, and requests that share a cache file.
use network_systems.Prelude.{
  ℕ, ◌+◌, ◌<◌, ◌≤◌, ◌≡◌, refl, ◌∷◌, ◌++◌, arith, ap, ltb, length, length-append, lt→ltb,
  append_assoc, false, ◌∙◌, sym, Bool-cases, inl, inr,
}
use network_systems.CString.{Bytes, codes, length-decimal}
use network_systems.Machine.{ok, err, overflow}
use network_systems.Proxy.Hash.{md5_generator, hash_loop}
use network_systems.Proxy.Hash.Laws.{md5_generator_collision, hash_loop_bound}
use network_systems.Proxy.World.{Config}
use network_systems.Proxy.Service.{hash_of}

-- The size of the two arrays, and the text that is hashed.
abbrev array_size : Bytes → Bytes → ℕ
array_size hostname file = length hostname + length file + 1

abbrev pub key_text : Bytes → Bytes → Bytes
key_text hostname file = hostname ++ codes "/" ++ file

length-key_text :
    (hostname file : Bytes) → length (key_text hostname file) ≡ array_size hostname file
length-key_text hostname file =
    omega
      (arith, length-append hostname (codes "/"), length-append (hostname ++ codes "/") file, slash)
  where
    slash : length (codes "/") ≡ 1
    slash = refl

pub length-md5_generator : (s : Bytes) → length (md5_generator s) ≤ 20
unfolding md5_generator
length-md5_generator s = length-decimal 19 (hash_loop 5381 s) (omega (arith, hash_loop_bound s))

-- With 20 bytes behind the arrays that nothing else uses, the hash of any host and file is
-- computed.
pub hash_of_fits :
    (k : Config) (hostname file : Bytes)
    → 20 ≤ k.slack (length hostname + length file + 1)
    → hash_of k hostname file ≡ ok (md5_generator (hostname ++ codes "/" ++ file))
unfolding hash_of
hash_of_fits k hostname file e =
    let n = array_size hostname file in
    rw (
      lt→ltb (length (key_text hostname file)) (n + k.slack n)
          (omega (arith, length-key_text hostname file)),
      lt→ltb (length (md5_generator (key_text hostname file))) (n + k.slack n)
          (omega (arith, length-md5_generator (key_text hostname file))),
    )

-- Without such bytes every request writes behind its array: there is no room for the NUL of the
-- text that is hashed.
pub hash_of_overflow :
    (k : Config) (hostname file : Bytes)
    → k.slack (length hostname + length file + 1) ≡ 0
    → hash_of k hostname file ≡ err overflow
unfolding hash_of
hash_of_overflow k hostname file e =
    let n = array_size hostname file in
    let full : ltb (length (key_text hostname file)) (n + k.slack n) ≡ false =
      ground (arith, length-key_text hostname file) in
    rw full

-- The key depends on the file through its length and the hash of the text.
hash_of_same :
    (k : Config) (hostname file file' : Bytes)
    → length file ≡ length file'
    → md5_generator (key_text hostname file) ≡ md5_generator (key_text hostname file')
    → hash_of k hostname file ≡ hash_of k hostname file'
unfolding hash_of
hash_of_same k hostname file file' e h =
    let n = array_size hostname file' in
    let same : length (key_text hostname file) ≡ length (key_text hostname file') =
      omega (arith, length-key_text hostname file, length-key_text hostname file') in
    elim (Bool-cases (ltb (length (key_text hostname file')) (n + k.slack n))) [
      | inl fit ↦ rw (e, same, fit, h)
      | inr over ↦ rw (e, same, over)
    ]

-- Two files of a host whose names differ in two neighbouring bytes, c and d + 33 in one and c +
-- 1 and d in the other, below 128, have one cache file.
pub hash_of_collision :
    (k : Config) (hostname front back : Bytes) (c d : ℕ)
    → c < 127
    → d < 95
    → hash_of k hostname (front ++ c ∷ (d + 33) ∷ back)
      ≡ hash_of k hostname (front ++ (c + 1) ∷ d ∷ back)
hash_of_collision k hostname front back c d p q =
    hash_of_same k hostname (front ++ c ∷ (d + 33) ∷ back) (front ++ (c + 1) ∷ d ∷ back)
      (omega (
        arith,
        length-append front (c ∷ (d + 33) ∷ back),
        length-append front ((c + 1) ∷ d ∷ back),
      ))
      (ap md5_generator (glued (c ∷ (d + 33) ∷ back))
        ∙ md5_generator_collision (hostname ++ codes "/" ++ front) back c d p q
        ∙ sym (ap md5_generator (glued ((c + 1) ∷ d ∷ back))))
  where
    glued : (s : Bytes) → key_text hostname (front ++ s) ≡ (hostname ++ codes "/" ++ front) ++ s
    glued s = sym (append_assoc (hostname ++ codes "/") front s)
