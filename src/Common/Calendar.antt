-- ===== src/Common/Calendar.antt =====
-- Numbers and times as `printf` and `strftime` of the C library write them.
pub mod Laws
use pvs_course_project.Base.{
  ℕ, zero, suc, ◌+◌, ◌/◌, ◌%◌, List, [], ◌∷◌, ◌++◌, Bytes, ltb, if◌then◌else◌,
}
use pvs_course_project.Base.Int.{ℤ, pos, negsuc}

-- `%d`: the decimal digits, at most as many as the first argument.
unfoldable pub digits : ℕ → ℕ → Bytes
digits zero n = []
digits (suc f) n =
    let rest = digits f (n / 10) in
    if ltb n 10 then (n + b'0') ∷ [] else rest ++ ((n % 10 + b'0') ∷ [])

-- An `int` has ten digits at most.
unfoldable pub decimal : ℤ → Bytes
unfolding digits
decimal (pos n) = digits 10 n
decimal (negsuc n) = b'-' ∷ digits 10 (suc n)

-- The broken-down time of localtime.
pub record Tm : Type 0 where
  pub tm_year : ℕ
  pub tm_mon : ℕ
  pub tm_mday : ℕ
  pub tm_hour : ℕ
  pub tm_min : ℕ
  pub tm_sec : ℕ

-- `%02d`
unfoldable pub two_digits : ℕ → Bytes
two_digits n = if ltb n 10 then b'0' ∷ decimal (pos n) else decimal (pos n)
