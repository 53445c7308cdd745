-- ===== src/Machine/Results.antt =====
-- Properties of a result, along the chain of calls that gives it.
use network_systems.Prelude.{ltb, length, ℕ, Bool, true, false, ◌≡◌, refl, if◌then◌else◌}
use network_systems.Machine.{Fault, Result, ok, err, overflow, fits, ◌>>=◌}
use network_systems.CString.{Bytes}

-- A result, if it is no fault, is so.
pub data Every {A : Type 0} (P : A → Type 0) : Result A → Type 0 where
  every_ok : (x : A) → P x → Every P (ok x)
  every_err : (e : Fault) → Every P (err e)

pub Every-bind :
    {A B : Type 0} {P : B → Type 0} {m : Result A} {f : A → Result B}
    → ((x : A) → m ≡ ok x → Every P (f x))
    → Every P (m >>= f)
Every-bind {m = ok x} h = h x refl
Every-bind {m = err e} h = every_err e

pub Every-if :
    {A : Type 0} {P : A → Type 0} (b : Bool) {r t : Result A}
    → Every P r
    → Every P t
    → Every P (if b then r else t)
Every-if true p q = p
Every-if false p q = q

pub Every-ok : {A : Type 0} {P : A → Type 0} {r : Result A} {x : A} → Every P r → r ≡ ok x → P x
Every-ok {x} (every_ok y h) e = let same : y ≡ x = cc e in rw same at h
Every-ok (every_err f) e = absurd (cc e)

pub bind-Every :
    {A B : Type 0} {P : A → Type 0} {m : Result A} {f g : A → Result B}
    → Every P m
    → ((x : A) → P x → f x ≡ g x)
    → (m >>= f) ≡ (m >>= g)
bind-Every (every_ok x p) h = h x p
bind-Every (every_err e) h = refl

pub Every-refl : {A : Type 0} (m : Result A) → Every (λ x. m ≡ ok x) m
Every-refl (ok x) = every_ok x refl
Every-refl (err e) = every_err e

pub Every-fits : (P : Bytes → Type 0) (n : ℕ) (s : Bytes) → P s → Every P (fits n s)
Every-fits P n s p = Every-if (ltb (length s) n) (every_ok s p) (every_err overflow)

-- What holds of the next result, where the first one is so.
pub Every-then :
    {A B : Type 0} {P : A → Type 0} {Q : B → Type 0} {m : Result A} {f : A → Result B}
    → Every P m
    → ((x : A) → P x → Every Q (f x))
    → Every Q (m >>= f)
Every-then (every_ok x p) h = h x p
Every-then (every_err e) h = every_err e

pub Every-weaken :
    {A : Type 0} {P Q : A → Type 0} {m : Result A} → Every P m → ((x : A) → P x → Q x) → Every Q m
Every-weaken (every_ok x p) h = every_ok x (h x p)
Every-weaken (every_err e) h = every_err e
