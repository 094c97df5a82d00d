-- ===== src/Common/Split.antt =====
-- `str_split` of smtp_proj/common/src/string_utils.c. Positions stand for the pointers into `a_str`;
-- a failed `assert` is `aborted`, and `malloc` is taken to succeed.
pub mod Laws
use pvs_course_project.Base.{
  ℕ, zero, suc, ◌+◌, ◌-◌, ◌≤◌, ◌<◌, ◌≡◌, ◌≢◌, refl, Bool, true, false, List, [], ◌∷◌, Option, none,
  some, arith, ◌∙◌, ap, Bytes, length, ◌==◌, ltb, ◌&&◌, not, if◌then◌else◌, Bool-cases, inl, inr,
  Run, ok, fault, null_pointer, aborted, diverged, ◌>>=◌,
}
use native.Mathlib.Nat.{zero-add}
use pvs_course_project.Common.Strtok.{
  strtok, fields, push, is_empty, drop_empty, words, TakesWord, strtok-TakesWord, fields-token,
  token,
}

-- The loop that counts the delimiters and keeps the place of the last one.
scan : ℕ → Bytes → ℕ → ℕ → Option ℕ → ℕ × Option ℕ
scan d [] tmp count last_comma = (count, last_comma)
scan d (c ∷ s) tmp count last_comma =
    scan d s (tmp + 1) (if d == c then count + 1 else count)
      (if d == c then some tmp else last_comma)

-- `last_comma < (a_str + strlen(a_str) - 1)`; the null pointer lies below every address.
abbrev is_before_last : Option ℕ → ℕ → Bool
is_before_last none len = true
is_before_last (some p) len = ltb (p + 1) len

abbrev to_ℕ : Bool → ℕ
to_ℕ true = 1
to_ℕ false = 0

-- The places allocated for `result`, the one for the final null pointer included.
slots : ℕ → Bytes → ℕ
unfolding scan
slots d s =
    let (count, last_comma) = scan d s 0 0 none in
    count + to_ℕ (is_before_last last_comma (length s)) + 1

-- The loop that stores the tokens, with both assertions. The first argument is fuel.
fill : ℕ → ℕ → ℕ → ℕ → Option (Bytes × Bytes) → Run (List Bytes)
fill zero d count idx found = diverged
fill (suc f) d count idx none = if idx == count - 1 then ok [] else aborted
fill (suc f) d count idx (some (t, rest)) =
    let others = fill f d count (idx + 1) (strtok d rest) in
    if ltb idx count then others >>= (λ ts. ok (t ∷ ts)) else aborted

unfoldable pub str_split : Bytes → ℕ → Run (List Bytes)
unfolding slots fill strtok
str_split a_str a_delim =
    fill (length a_str + 2) a_delim (slots a_delim a_str) 0 (strtok a_delim a_str)

-- `tokens[0]`, where the array of tokens ends with a null pointer.
abbrev pub first_token : List Bytes → Run Bytes
first_token [] = fault null_pointer
first_token (t ∷ ts) = ok t
