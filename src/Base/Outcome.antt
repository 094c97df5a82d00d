-- ===== src/Base/Outcome.antt =====
-- What a C function may do: return, meet undefined behaviour, end the process by `exit`, or fail an
-- assertion. `diverged` stands for a loop whose fuel ran out.
use Prim.Native.Nat.{ℕ}
use mathlib.Core.Path.{◌≡◌, refl}
use mathlib.Core.Bool.{Bool, true, false}

-- The undefined behaviours that the code can meet.
pub data Fault : Type 0 where
  null_pointer wild_pointer dangling_pointer overrun underrun signed_overflow : Fault

pub data Run {ℓ} (A : Type ℓ) : Type ℓ where
  ok : A → Run A
  fault : Fault → Run A
  exited : ℕ → Run A
  aborted : Run A
  diverged : Run A

infixl 5 ◌>>=◌ ◌>>◌
abbrev pub ◌>>=◌ {ℓ κ} : {A : Type ℓ} {B : Type κ} → Run A → (A → Run B) → Run B
ok a >>= f = f a
fault e >>= f = fault e
exited n >>= f = exited n
aborted >>= f = aborted
diverged >>= f = diverged

abbrev pub ◌>>◌ {ℓ} : {B : Type ℓ} → Run (Unit {0}) → Run B → Run B
m >> k = m >>= λ _. k

-- Undefined behaviour unless the test holds.
abbrev pub require : Bool → Fault → Run (Unit {0})
require true e = ok tt
require false e = fault e

-- What holds of every value that a run returns.
abbrev pub Returns {ℓ κ} : {A : Type ℓ} → (A → Type κ) → Run A → Type κ
Returns P (ok a) = P a
Returns P (fault e) = Unit
Returns P (exited n) = Unit
Returns P aborted = Unit
Returns P diverged = Unit

pub ok_inj {ℓ} : {A : Type ℓ} {a b : A} → ok a ≡ ok b → a ≡ b
ok_inj e = cc e

-- Inversion of a bind that returns.
pub >>=-eq-ok {ℓ κ} :
    {A : Type ℓ} {B : Type κ} (run : Run A) (next : A → Run B) {out : B}
    → (run >>= next) ≡ ok out
    → (a : A) × (run ≡ ok a) × (next a ≡ ok out)
>>=-eq-ok (fault e) next h = cc
>>=-eq-ok (exited n) next h = cc
>>=-eq-ok aborted next h = cc
>>=-eq-ok diverged next h = cc
>>=-eq-ok (ok value) next h = (value, refl, h)

-- The rule for a bind.
pub Returns-bind {ℓ κ μ ν} :
    {A : Type ℓ} {B : Type κ} (P : A → Type μ) (Q : B → Type ν) (m : Run A) (f : A → Run B)
    → Returns P m
    → ((a : A) → P a → Returns Q (f a))
    → Returns Q (m >>= f)
Returns-bind P Q (ok a) f h k = k a h
Returns-bind P Q (fault e) f h k = tt
Returns-bind P Q (exited n) f h k = tt
Returns-bind P Q aborted f h k = tt
Returns-bind P Q diverged f h k = tt

pub Returns-any {ℓ} : {A : Type ℓ} (m : Run A) → Returns (λ _. Unit {0}) m
Returns-any (ok a) = tt
Returns-any (fault e) = tt
Returns-any (exited n) = tt
Returns-any aborted = tt
Returns-any diverged = tt
