-- ===== src/Common/Calendar/Laws.antt =====
-- How long the texts of numbers are.
use pvs_course_project.Base.{
  ℕ, suc, ◌+◌, ◌/◌, ◌%◌, ◌≤◌, ◌<◌, ◌≡◌, refl, ap, [], ◌∷◌, ◌++◌, Bytes, length, length-append, ltb,
  lt→ltb, arith, Bool-cases, inl, inr,
}
use pvs_course_project.Base.Int.{pos}
use pvs_course_project.Common.Calendar.{digits, decimal, Tm, two_digits}

digits_one : (f n : ℕ) → n < 10 → length (digits (suc f) n) ≡ 1
unfolding digits
digits_one f n h = rw (lt→ltb n 10 h) refl

digits_more : (f n : ℕ) → 10 ≤ n → length (digits (suc f) n) ≡ length (digits f (n / 10)) + 1
unfolding digits
digits_more f n h = ground (arith, length-append (digits f (n / 10)) ((n % 10 + b'0') ∷ []))

decimal-digits : (n : ℕ) → decimal (pos n) ≡ digits 10 n
unfolding decimal
decimal-digits n = refl

length-decimal_one : (n : ℕ) → n < 10 → length (decimal (pos n)) ≡ 1
length-decimal_one n h = rw (decimal-digits n) (digits_one 9 n h)

length-decimal_two : (n : ℕ) → 10 ≤ n → n < 100 → length (decimal (pos n)) ≡ 2
length-decimal_two n h k =
    rw (decimal-digits n) (omega (arith, digits_more 9 n h, digits_one 8 (n / 10) (omega arith)))

-- The digits of a year.
pub length-decimal_four : (n : ℕ) → 1000 ≤ n → n < 10000 → length (decimal (pos n)) ≡ 4
length-decimal_four n h k = rw (decimal-digits n) (
    omega (
      arith,
      digits_more 9 n (omega arith),
      digits_more 8 (n / 10) (omega arith),
      digits_more 7 (n / 10 / 10) (omega arith),
      digits_one 6 (n / 10 / 10 / 10) (omega arith),
    ))

pub length-two_digits : (n : ℕ) → n < 100 → length (two_digits n) ≡ 2
unfolding two_digits
length-two_digits n h = elim (Bool-cases (ltb n 10)) [
  | inl small ↦ rw small (ap suc (length-decimal_one n (ground arith)))
  | inr large ↦ rw large (length-decimal_two n (ground arith) h)
]

-- The fields of localtime, up to the year 9999.
pub record IsTm (now : Tm) : Type 0 where
  pub year : now.tm_year < 8100
  pub mon : now.tm_mon < 12
  pub mday : now.tm_mday < 32
  pub hour : now.tm_hour < 24
  pub min : now.tm_min < 60
  pub sec : now.tm_sec < 61

pub length-sep : (a : Bytes) (c : ℕ) (b : Bytes) → length (a ++ (c ∷ b)) ≡ length a + length b + 1
length-sep a c b = omega (arith, length-append a (c ∷ b))
