-- ===== src/Base/Text.antt =====
-- C strings as lists of byte values, without the final NUL.
use Prim.Native.Char.{code}
use Prim.Native.Nat.{◌≤◌, ◌<◌, ℕ}
use Prim.Native.String.{String}
use mathlib.Core.Path.{◌≡◌, refl}
use mathlib.Core.Logic.{◌≢◌, ◌↔◌}
use mathlib.Core.Bool.{Bool, true, false, ◌&&◌}
use mathlib.Core.List.{List, [], ◌∷◌, ◌++◌}
use native.Mathlib.Omega.{arith}
use pvs_course_project.Base.Lists.{length, All}
use pvs_course_project.Base.Tests.{lt→ltb, ◌==◌, ltb, if◌then◌else◌}
use pvs_course_project.Base.Outcome.{Run, ok, fault, overrun}

abbrev pub Bytes : Type 0
Bytes = List ℕ

-- The code points of a literal: its bytes, if it is ASCII.
abbrev pub codes : String → Bytes
codes String.[] = []
codes (String.◌∷◌ c s) = code c ∷ codes s

abbrev pub Lacks : ℕ → Bytes → Type 0
Lacks b = All (λ c. c ≢ b)

-- `strcmp(a, b) == 0`
unfoldable pub str_eq : Bytes → Bytes → Bool
str_eq [] [] = true
str_eq (a ∷ s) (b ∷ t) = (a == b) && str_eq s t
str_eq _ _ = false

pub str_eq-eq : (s t : Bytes) → str_eq s t ≡ true → s ≡ t
unfolding str_eq
str_eq-eq [] [] h = refl
str_eq-eq (a ∷ s) (b ∷ t) h = ground (arith, str_eq-eq s t)
str_eq-eq [] (b ∷ t) h = ground arith
str_eq-eq (a ∷ s) [] h = ground arith

pub str_eq_self : (s : Bytes) → str_eq s s ≡ true
unfolding str_eq
str_eq_self [] = refl
str_eq_self (a ∷ s) = ground (arith, str_eq_self s)

str_eq_iff : (s t : Bytes) → (str_eq s t ≡ true) ↔ (s ≡ t)
str_eq_iff s t = (str_eq-eq s t, λ e. rw e (str_eq_self t))

-- `strcpy` into a buffer of `cap` bytes: the text and its NUL must fit.
abbrev pub strcpy : ℕ → Bytes → Run Bytes
strcpy cap src = if ltb (length src) cap then ok src else fault overrun

-- `strcat` onto a buffer of `cap` bytes.
abbrev pub strcat : ℕ → Bytes → Bytes → Run Bytes
strcat cap dst src = strcpy cap (dst ++ src)

pub strcpy-eq-ok : (cap : ℕ) (src out : Bytes) → strcpy cap src ≡ ok out → out ≡ src
strcpy-eq-ok cap src out h = ground arith

-- A copy that fits returns the text.
pub strcpy_fits : (cap : ℕ) (src : Bytes) → length src < cap → strcpy cap src ≡ ok src
strcpy_fits cap src h = rw (lt→ltb _ _ h)

-- A copy that does not fit runs over the end of the buffer.
pub strcpy_overrun : (cap : ℕ) (src : Bytes) → cap ≤ length src → strcpy cap src ≡ fault overrun
strcpy_overrun cap src h = ground arith
