-- ===== src/CString/Decimal.antt =====
-- `atoi`, `sprintf` with "%d" or "%lu" of a number that is not negative, and their round trip.
use network_systems.Prelude.{
  ℕ, zero, suc, ◌+◌, ◌-◌, ◌*◌, ◌/◌, ◌%◌, ◌<◌, ◌≤◌, ◌^◌, length, ◌≡◌, ◌≢◌, refl, Bool, true, false,
  ◌&&◌, ◌||◌, [], ◌∷◌, ◌++◌, arith, ltb, leb, ◌==◌, if◌then◌else◌, ◌∙◌, ap,
}
use network_systems.CString.Text.{Bytes, elem}

-- `negsuc n` is -(n + 1).
pub data ℤ : Type 0 where
  pos : ℕ → ℤ
  negsuc : ℕ → ℤ

-- The number, or 0 if it is negative.
abbrev pub pos_part : ℤ → ℕ
pos_part (pos n) = n
pos_part (negsuc n) = 0

abbrev neg : ℕ → ℤ
neg zero = pos 0
neg (suc n) = negsuc n

abbrev pub is_digit : ℕ → Bool
is_digit c = leb b'0' c && leb c b'9'

abbrev pub is_space : ℕ → Bool
is_space c = c == b' ' || (leb 9 c && leb c 13)

-- The digits at the front, read onto the number so far.
abbrev pub read_digits : ℕ → Bytes → ℕ
read_digits n [] = n
read_digits n (c ∷ s) =
    let more = read_digits (n * 10 + (c - b'0')) s in if is_digit c then more else n

abbrev signed : Bytes → ℤ
signed [] = pos 0
signed (c ∷ s) =
    if c == b'-'
    then neg (read_digits 0 s)
    else if c == b'+'
    then pos (read_digits 0 s)
    else pos (read_digits 0 (c ∷ s))

-- atoi(s): blanks, a sign, digits. C leaves a value that is out of range undefined.
abbrev pub atoi : Bytes → ℤ
atoi [] = pos 0
atoi (c ∷ s) = if is_space c then atoi s else signed (c ∷ s)

-- The digits of a number in front of `rest`; each round uses one unit of fuel.
pub digits : ℕ → ℕ → Bytes → Bytes
digits zero n rest = rest
digits (suc f) n rest =
    let more = digits f (n / 10) ((b'0' + n % 10) ∷ rest) in
    if ltb n 10 then (b'0' + n) ∷ rest else more

-- sprintf(buf, "%lu", n)
unfoldable pub decimal : ℕ → Bytes
unfolding digits
decimal n = digits (suc n) n []

-- The string does not go on with a digit.
abbrev pub EndsNumber : Bytes → Type 0
EndsNumber [] = Unit
EndsNumber (c ∷ s) = is_digit c ≡ false

digits-append : (f n : ℕ) (r s : Bytes) → digits f n (r ++ s) ≡ digits f n r ++ s
unfolding digits
digits-append zero n r s = refl
digits-append (suc f) n r s = ground (arith, digits-append f (n / 10) ((b'0' + n % 10) ∷ r) s)

read_digits-digits :
    (f n : ℕ) (rest : Bytes) → n < f → read_digits 0 (digits f n rest) ≡ read_digits n rest
unfolding digits
read_digits-digits zero n rest h = absurd (omega arith)
read_digits-digits (suc f) n rest h =
    ground (arith, read_digits-digits f (n / 10) ((b'0' + n % 10) ∷ rest))

abbrev pub all_digits : Bytes → Bool
all_digits [] = true
all_digits (c ∷ s) = is_digit c && all_digits s

digits-all_digits :
    (f n : ℕ) (rest : Bytes) → all_digits rest ≡ true → all_digits (digits f n rest) ≡ true
unfolding digits
digits-all_digits zero n rest h = h
digits-all_digits (suc f) n rest h =
    ground (arith, digits-all_digits f (n / 10) ((b'0' + n % 10) ∷ rest))

pub decimal-all_digits : (n : ℕ) → all_digits (decimal n) ≡ true
unfolding decimal
decimal-all_digits n = digits-all_digits (suc n) n [] refl

-- A byte that is no digit does not occur in a number.
pub elem-all_digits :
    (c : ℕ) (s : Bytes) → is_digit c ≡ false → all_digits s ≡ true → elem c s ≡ false
elem-all_digits c [] d h = refl
elem-all_digits c (x ∷ s) d h = ground (arith, elem-all_digits c s)

pub elem-decimal : (c n : ℕ) → is_digit c ≡ false → elem c (decimal n) ≡ false
elem-decimal c n d = elem-all_digits c (decimal n) d (decimal-all_digits n)

digits-ne-nil : (f n : ℕ) (c : ℕ) (rest : Bytes) → digits f n (c ∷ rest) ≢ []
unfolding digits
digits-ne-nil zero n c rest = cc
digits-ne-nil (suc f) n c rest = ground (arith, digits-ne-nil f (n / 10) (b'0' + n % 10) (c ∷ rest))

pub decimal-ne-nil : (n : ℕ) → decimal n ≢ []
unfolding decimal digits
decimal-ne-nil n = ground (arith, digits-ne-nil n (n / 10) (b'0' + n % 10) [])

read_digits-append :
    (a : ℕ) (s rest : Bytes)
    → all_digits s ≡ true
    → EndsNumber rest
    → read_digits a (s ++ rest) ≡ read_digits a s
read_digits-append a [] [] h e = refl
read_digits-append a [] (c ∷ rest) h e = ground arith
read_digits-append a (c ∷ s) rest h e =
    ground (arith, read_digits-append (a * 10 + (c - b'0')) s rest)

atoi-all_digits :
    (s : Bytes)
    → s ≢ []
    → all_digits s ≡ true
    → (rest : Bytes) → atoi (s ++ rest) ≡ pos (read_digits 0 (s ++ rest))
atoi-all_digits [] n h rest = absurd (n refl)
atoi-all_digits (c ∷ s) n h rest = ground arith

read_digits-decimal : (n : ℕ) → read_digits 0 (decimal n) ≡ n
unfolding decimal
read_digits-decimal n = read_digits-digits (suc n) n [] (omega arith)

-- `atoi` reads back what `sprintf` printed, up to a byte that is no digit.
pub atoi-decimal : (n : ℕ) (rest : Bytes) → EndsNumber rest → atoi (decimal n ++ rest) ≡ pos n
atoi-decimal n rest e =
    atoi-all_digits (decimal n) (decimal-ne-nil n) (decimal-all_digits n) rest
    ∙ ap pos
        (read_digits-append 0 (decimal n) rest (decimal-all_digits n) e ∙ read_digits-decimal n)

length-digits :
    (k f n : ℕ) (rest : Bytes)
    → n < 10 ^ suc k
    → n < f
    → length (digits f n rest) ≤ suc k + length rest
unfolding digits
length-digits k zero n rest h e = absurd (omega arith)
length-digits zero (suc f) n rest h e = ground arith
length-digits (suc k) (suc f) n rest h e =
    let small : n / 10 < 10 ^ suc k = omega arith in
    ground (arith, length-digits k f (n / 10) ((b'0' + n % 10) ∷ rest) small)

-- A number below 10^(k + 1) is printed with at most k + 1 digits.
pub length-decimal : (k n : ℕ) → n < 10 ^ suc k → length (decimal n) ≤ suc k
unfolding decimal
length-decimal k n h = omega (arith, length-digits k (suc n) n [] h (omega arith))
