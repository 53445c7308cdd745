-- ===== src/Machine.antt =====
-- What the C code does outside its arrays and its pointers: results that are values, or faults.
pub mod Results
use network_systems.Prelude.{ℕ, Option, none, some, if◌then◌else◌, ltb, length}
use network_systems.CString.{Bytes}

-- How a request can break its thread: a null or wild pointer, a buffer overrun, a loop without end.
pub data Fault : Type 0 where
  null_pointer overflow hang : Fault

pub data Result {ℓ} (A : Type ℓ) : Type ℓ where
  ok : A → Result A
  err : Fault → Result A

infixl 5 ◌>>=◌ ◌>>◌
abbrev pub ◌>>=◌ {ℓ κ} : {A : Type ℓ} {B : Type κ} → Result A → (A → Result B) → Result B
ok a >>= f = f a
err e >>= f = err e

abbrev pub ◌>>◌ {ℓ κ} : {A : Type ℓ} {B : Type κ} → Result A → Result B → Result B
m >> k = m >>= λ _. k

-- A pointer that is used without a test.
abbrev pub deref {ℓ} : {A : Type ℓ} → Option A → Result A
deref none = err null_pointer
deref (some a) = ok a

-- The end of a string in an array of `size` bytes, or the overrun.
abbrev pub fits : ℕ → Bytes → Result Bytes
fits size s = if ltb (length s) size then ok s else err overflow
