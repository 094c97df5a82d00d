-- ===== src/Base/Int.antt =====
-- Signed integers over the native numbers, under the library's names.
use pvs_course_project.Base.{
  ℕ, suc, ◌+◌, ◌-◌, ◌%◌, ◌^◌, Bool, not, ◌||◌, ◌&&◌, ltb, leb, if◌then◌else◌,
}

-- `negsuc n` is -(n + 1).
pub data ℤ : Type 0 where
  pos : ℕ → ℤ
  negsuc : ℕ → ℤ

abbrev pub pos_part : ℤ → ℕ
pos_part (pos n) = n
pos_part (negsuc n) = 0

abbrev pub neg_part : ℤ → ℕ
neg_part (pos n) = 0
neg_part (negsuc n) = suc n

-- a - b, as an integer.
abbrev pub sub_ℕ : ℕ → ℕ → ℤ
sub_ℕ a b = if leb b a then pos (a - b) else negsuc (b - a - 1)

abbrev pub neg : ℕ → ℤ
neg n = sub_ℕ 0 n

abbrev pub ltb_ℤ : ℤ → ℤ → Bool
ltb_ℤ a b = ltb (pos_part a + neg_part b) (pos_part b + neg_part a)

abbrev pub eq_ℤ : ℤ → ℤ → Bool
eq_ℤ a b = not (ltb_ℤ a b || ltb_ℤ b a)

abbrev pub word : ℕ
word = 2 ^ 32

-- The `int` of a `long`: the low 32 bits, read as a signed number.
abbrev signed : ℕ → ℤ
signed n = if ltb n (2 ^ 31) then pos n else sub_ℕ n word

abbrev pub to_int : ℤ → ℤ
to_int z = signed ((pos_part z % word + (word - neg_part z % word)) % word)

-- Is the number an `int`?
abbrev pub is_int : ℤ → Bool
is_int z = ltb_ℤ z (pos (2 ^ 31)) && not (ltb_ℤ z (sub_ℕ 0 (2 ^ 31)))
