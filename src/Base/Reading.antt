-- ===== src/Base/Reading.antt =====
-- The steps of a function that reads its configuration and returns at the first that fails.
use pvs_course_project.Base.{Bool, true, false, Option, none, some}
use pvs_course_project.Base.Int.{ℤ, pos}

-- An initialisation under way, or stopped with a return value and the options read so far.
pub data Reading (O A : Type 0) : Type 0 where
  stopped : ℤ → O → Reading O A
  going : A → Reading O A

infixl 5 ◌>>=◌
abbrev pub ◌>>=◌ : {O A B : Type 0} → Reading O A → (A → Reading O B) → Reading O B
stopped code o >>= f = stopped code o
going a >>= f = f a

-- `if (lookup(…) != CONFIG_TRUE) return code;`
abbrev pub need : {O A : Type 0} → ℤ → O → Option A → Reading O A
need code o none = stopped code o
need code o (some a) = going a

-- `if (bad) return code;`
abbrev pub refuse : {O : Type 0} → ℤ → Bool → O → Reading O O
refuse code true o = stopped code o
refuse code false o = going o

abbrev pub finish : {O : Type 0} → Reading O O → ℤ × O
finish (stopped code o) = (code, o)
finish (going o) = (pos 0, o)
