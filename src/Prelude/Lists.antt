-- ===== src/Prelude/Lists.antt =====
-- Lists measured and indexed by native numbers, under the library's names.
use Prim.Native.Nat.{ℕ, zero, suc, ◌+◌, ◌-◌, ◌≤◌, min}
use mathlib.Core.Path.{◌≡◌, refl, ap}
use mathlib.Core.List.{List, [], ◌∷◌, ◌++◌}
use native.Mathlib.Omega.{arith}

module _ {ℓ} {A : Type ℓ} where
  abbrev pub length : List A → ℕ
  length [] = 0
  length (x ∷ xs) = suc (length xs)

  abbrev pub take : ℕ → List A → List A
  take zero xs = []
  take (suc n) [] = []
  take (suc n) (x ∷ xs) = x ∷ take n xs

  abbrev pub drop : ℕ → List A → List A
  drop zero xs = xs
  drop (suc n) [] = []
  drop (suc n) (x ∷ xs) = drop n xs

  abbrev pub replicate : ℕ → A → List A
  replicate zero a = []
  replicate (suc n) a = a ∷ replicate n a

  -- All pieces, one after the other.
  abbrev pub join : List (List A) → List A
  join [] = []
  join (x ∷ xs) = x ++ join xs

module _ {ℓ} {A : Type ℓ} where
  pub length-append : (xs ys : List A) → length (xs ++ ys) ≡ length xs + length ys
  length-append [] ys = omega arith
  length-append (x ∷ xs) ys = omega (arith, length-append xs ys)

  pub take-append-drop : (n : ℕ) (xs : List A) → take n xs ++ drop n xs ≡ xs
  take-append-drop zero xs = refl
  take-append-drop (suc n) [] = refl
  take-append-drop (suc n) (x ∷ xs) = ap (◌∷◌ x) (take-append-drop n xs)

  pub take_all : (n : ℕ) (xs : List A) → length xs ≤ n → take n xs ≡ xs
  take_all zero [] h = refl
  take_all zero (x ∷ xs) h = absurd (omega arith)
  take_all (suc n) [] h = refl
  take_all (suc n) (x ∷ xs) h = ap (◌∷◌ x) (take_all n xs (omega arith))

  pub drop_all : (n : ℕ) (xs : List A) → length xs ≤ n → drop n xs ≡ []
  drop_all zero [] h = refl
  drop_all zero (x ∷ xs) h = absurd (omega arith)
  drop_all (suc n) [] h = refl
  drop_all (suc n) (x ∷ xs) h = drop_all n xs (omega arith)

  pub length-take : (n : ℕ) (xs : List A) → length (take n xs) ≡ min n (length xs)
  length-take zero xs = omega arith
  length-take (suc n) [] = omega arith
  length-take (suc n) (x ∷ xs) = omega (arith, length-take n xs)

  pub length-drop : (n : ℕ) (xs : List A) → length (drop n xs) ≡ length xs - n
  length-drop zero xs = omega arith
  length-drop (suc n) [] = omega arith
  length-drop (suc n) (x ∷ xs) = omega (arith, length-drop n xs)

  pub drop-append : (xs ys : List A) → drop (length xs) (xs ++ ys) ≡ ys
  drop-append [] ys = refl
  drop-append (x ∷ xs) ys = drop-append xs ys

  pub take-append_le :
      (m : ℕ) (a b : List A) → length a ≤ m → take m (a ++ b) ≡ a ++ take (m - length a) b
  take-append_le m [] b h = let e : m - 0 ≡ m = omega arith in rw e
  take-append_le zero (x ∷ a) b h = absurd (omega arith)
  take-append_le (suc m) (x ∷ a) b h =
      let e : suc m - suc (length a) ≡ m - length a = omega arith in
      rw e (ap (◌∷◌ x) (take-append_le m a b (omega arith)))

  pub drop-append_le :
      (m : ℕ) (a b : List A) → length a ≤ m → drop m (a ++ b) ≡ drop (m - length a) b
  drop-append_le m [] b h = let e : m - 0 ≡ m = omega arith in rw e
  drop-append_le zero (x ∷ a) b h = absurd (omega arith)
  drop-append_le (suc m) (x ∷ a) b h =
      let e : suc m - suc (length a) ≡ m - length a = omega arith in
      rw e (drop-append_le m a b (omega arith))

  pub length-replicate : (n : ℕ) (a : A) → length (replicate n a) ≡ n
  length-replicate zero a = refl
  length-replicate (suc n) a = ap suc (length-replicate n a)

  -- All but the last element.
  pub take_but_last : (xs : List A) (x : A) → take (length (xs ++ x ∷ []) - 1) (xs ++ x ∷ []) ≡ xs
  take_but_last [] x = refl
  take_but_last (y ∷ xs) x =
      let e : length (y ∷ (xs ++ x ∷ [])) - 1 ≡ suc (length (xs ++ x ∷ []) - 1) =
        omega (arith, length-append xs (x ∷ []), one x) in
      rw e (ap (◌∷◌ y) (take_but_last xs x))
    where
      one : (x : A) → length (x ∷ []) ≡ 1
      one x = refl
