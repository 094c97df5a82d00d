-- ===== src/Server/Config/Refusals.antt =====
-- The return values of the initialisations of smtp_proj/server/src/config.c, step by step.
use pvs_course_project.Base.{◌≡◌, refl, ◌≢◌, Bool, true, false, Option, none, some, arith}
use mathlib.Core.Path.{ap}
use pvs_course_project.Base.Int.{ℤ, pos}
use pvs_course_project.Server.Config.{
  Reading, stopped, going, ◌>>=◌, need, refuse, finish, unrecognized, server_opts_err,
}

pub >>=-eq-going :
    {O A B : Type 0} (r : Reading O A) (f : A → Reading O B) {b : B}
    → (r >>= f) ≡ going b
    → (a : A) × (r ≡ going a) × (f a ≡ going b)
>>=-eq-going (stopped code o) f h = cc
>>=-eq-going (going a) f h = (a, refl, h)

pub need_inv :
    {O A : Type 0} (code : ℤ) (o : O) (found : Option A) {a : A}
    → need code o found ≡ going a
    → found ≡ some a
need_inv code o none h = cc
need_inv code o (some b) h = cc

pub refuse_inv :
    {O : Type 0} (code : ℤ) (bad : Bool) (o : O) {after : O}
    → refuse code bad o ≡ going after
    → (bad ≡ false) × (o ≡ after)
refuse_inv code true o h = cc
refuse_inv code false o h = (refl, cc)

-- What holds of the return value of an initialisation that is refused.
abbrev pub Stops : (ℤ → Type 0) → {O A : Type 0} → Reading O A → Type 0
Stops P (stopped code o) = P code
Stops P (going a) = Unit

pub Stops-bind :
    (P : ℤ → Type 0) {O A B : Type 0} (r : Reading O A) (f : A → Reading O B)
    → Stops P r
    → ((a : A) → Stops P (f a))
    → Stops P (r >>= f)
Stops-bind P (stopped code o) f h k = h
Stops-bind P (going a) f h k = k a

Stops-need :
    (P : ℤ → Type 0) {O A : Type 0} (code : ℤ) (o : O) (found : Option A)
    → P code
    → Stops P (need code o found)
Stops-need P code o none h = h
Stops-need P code o (some a) h = tt

pub Stops-need_bind :
    (P : ℤ → Type 0) {O A B : Type 0} (code : ℤ) (o : O) (found : Option A) (f : A → Reading O B)
    → P code
    → ((a : A) → Stops P (f a))
    → Stops P (need code o found >>= f)
Stops-need_bind P code o found f h k =
    Stops-bind P (need code o found) f (Stops-need P code o found h) k

pub Stops-refuse :
    (P : ℤ → Type 0) {O : Type 0} (code : ℤ) (bad : Bool) (o : O)
    → P code
    → Stops P (refuse code bad o)
Stops-refuse P code true o h = h
Stops-refuse P code false o h = tt

-- A return value other than 0, with a text.
abbrev pub IsRefusal : ℤ → Type 0
IsRefusal code = (code ≢ pos 0) × (server_opts_err code ≢ unrecognized)

pub finish_inv :
    {O : Type 0} (r : Reading O O) {after : O}
    → Stops IsRefusal r
    → finish r ≡ (pos 0, after)
    → r ≡ going after
finish_inv (stopped code o) (h, _) e = absurd (h (ap (λ p. p.0) e))
finish_inv (going o) h e = ap (λ p. going p.1) e

pub finish_err :
    {O : Type 0} (r : Reading O O) → Stops IsRefusal r → server_opts_err (finish r).0 ≢ unrecognized
finish_err (stopped code o) (_, h) = h
finish_err (going o) h = λ e. ground arith
