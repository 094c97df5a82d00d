-- ===== src/Common/Split/Laws.antt =====
-- What `str_split` of smtp_proj/common/src/string_utils.c returns: the fields of the text, or a failed
-- assertion.
use pvs_course_project.Base.{
  ℕ, zero, suc, ◌+◌, ◌-◌, ◌≤◌, ◌<◌, ◌≡◌, ◌≢◌, refl, Bool, true, false, List, [], ◌∷◌, Option, none,
  some, arith, ◌∙◌, ap, Bytes, length, ◌==◌, ◌&&◌, not, if◌then◌else◌, Bool-cases, inl, inr, ok,
  aborted,
}
use native.Mathlib.Nat.{zero-add}
use pvs_course_project.Common.Strtok.{
  strtok, fields, push, is_empty, drop_empty, words, TakesWord, strtok-TakesWord, fields-token,
  token,
}
use pvs_course_project.Common.Split.{scan, is_before_last, to_ℕ, slots, fill, str_split}

-- While there is room for the words, the loop stores them all and its last assertion decides.
fill_lem :
    (f d count idx : ℕ) (s : Bytes) (found : Option (Bytes × Bytes))
    → TakesWord d s found
    → length s + 1 < f
    → idx + length (words d s) < count
    → fill f d count idx found
      ≡ (if idx + length (words d s) == count - 1 then ok (words d s) else aborted)
unfolding fill
fill_lem zero d count idx s found t h k = absurd (omega arith)
fill_lem (suc f) d count idx s none t h k = ground (arith, ap length t)
fill_lem (suc f) d count idx s (some (w, rest)) (t, l) h k = ground (
  arith,
  t,
  ap length t,
  fill_lem f d count (idx + 1) rest (strtok d rest) (strtok-TakesWord d rest),
)

-- Every field holds text, but for the last one, which may be empty.
abbrev pub is_full_but_last : List Bytes → Bool
is_full_but_last [] = true
is_full_but_last (f ∷ []) = true
is_full_but_last (f ∷ g ∷ fs) = not (is_empty f) && is_full_but_last (g ∷ fs)

abbrev pub is_tidy : List Bytes → Bool
is_tidy [] = false
is_tidy (f ∷ fs) = not (is_empty f) && is_full_but_last fs

abbrev last_empty : List Bytes → Bool
last_empty [] = false
last_empty (f ∷ []) = is_empty f
last_empty (f ∷ g ∷ fs) = last_empty (g ∷ fs)

abbrev IsBelow : Option ℕ → ℕ → Type 0
IsBelow none tmp = Unit
IsBelow (some p) tmp = p < tmp

length-fields :
    (d : ℕ) (s : Bytes) (tmp count : ℕ) (last : Option ℕ)
    → (scan d s tmp count last).0 + 1 ≡ count + length (fields d s)
unfolding scan fields
length-fields d [] tmp count last = omega arith
length-fields d (c ∷ s) tmp count last =
    let (fs, first, _) = fields-token d s in
    ground (
      arith,
      ap length first,
      first,
      length-fields d s (tmp + 1) (count + 1) (some tmp),
      length-fields d s (tmp + 1) count last,
    )

-- A byte put in front of a text leaves its last field as it is, unless the text is empty.
last_empty-push :
    (d c e : ℕ) (s : Bytes) → last_empty (push c (fields d (e ∷ s))) ≡ last_empty (fields d (e ∷ s))
unfolding fields
last_empty-push d c e s = let (fs, first, _) = fields-token d s in rw first (ground arith)

fields-cons :
    (d c : ℕ) (s : Bytes)
    → fields d (c ∷ s) ≡ (if c == d then [] ∷ fields d s else push c (fields d s))
unfolding fields
fields-cons d c s = refl

last_empty-cons :
    (d c e : ℕ) (s : Bytes) → last_empty (fields d (c ∷ e ∷ s)) ≡ last_empty (fields d (e ∷ s))
last_empty-cons d c e s = elim (Bool-cases (c == d)) [
  | inl h ↦
      let (fs, first, _) = fields-token d (e ∷ s) in rw (fields-cons d c (e ∷ s), h) (rw first refl)
  | inr h ↦ rw (fields-cons d c (e ∷ s), h) (last_empty-push d c e s)
]

-- The place that the loop keeps lies behind the bytes read.
IsBelow-step :
    (d c : ℕ) (last : Option ℕ) (tmp : ℕ)
    → IsBelow last tmp
    → IsBelow (if d == c then some tmp else last) (tmp + 1)
IsBelow-step d c none tmp h = ground arith
IsBelow-step d c (some p) tmp h = ground arith

shift : (a b : ℕ) → a + suc b ≡ a + 1 + b
shift a b = omega arith

scan-cons :
    (d c : ℕ) (s : Bytes) (tmp count : ℕ) (last : Option ℕ)
    → scan d (c ∷ s) tmp count last
      ≡ scan d s (tmp + 1) (if d == c then count + 1 else count) (if d == c then some tmp else last)
unfolding scan
scan-cons d c s tmp count last = refl

-- The last delimiter is the last byte exactly if the last field is empty.
scan-last :
    (d c : ℕ) (s : Bytes) (tmp count : ℕ) (last : Option ℕ)
    → IsBelow last tmp
    → is_before_last (scan d (c ∷ s) tmp count last).1 (tmp + length (c ∷ s))
      ≡ not (last_empty (fields d (c ∷ s)))
scan-last d c [] tmp count none h = unfold scan fields in ground arith
scan-last d c [] tmp count (some p) h = unfold scan fields in ground arith
scan-last d c (e ∷ s) tmp count last h =
    rw (last_empty-cons d c e s, scan-cons d c (e ∷ s) tmp count last)
      (ap (is_before_last _) (shift tmp (length (e ∷ s)))
        ∙ scan-last d e s (tmp + 1) (if d == c then count + 1 else count)
            (if d == c then some tmp else last) (IsBelow-step d c last tmp h))

words_le : (fs : List Bytes) → length (drop_empty fs) + to_ℕ (last_empty fs) ≤ length fs
words_le [] = omega arith
words_le ([] ∷ []) = omega arith
words_le ((c ∷ f) ∷ []) = omega arith
words_le ([] ∷ g ∷ fs) = omega (arith, words_le (g ∷ fs))
words_le ((c ∷ f) ∷ g ∷ fs) = omega (arith, words_le (g ∷ fs))

is_full_lem :
    (fs : List Bytes)
    → is_full_but_last fs ≡ (length (drop_empty fs) + to_ℕ (last_empty fs) == length fs)
is_full_lem [] = ground arith
is_full_lem ([] ∷ []) = ground arith
is_full_lem ((c ∷ f) ∷ []) = ground arith
is_full_lem ([] ∷ g ∷ fs) = ground (arith, words_le (g ∷ fs))
is_full_lem ((c ∷ f) ∷ g ∷ fs) = ground (arith, is_full_lem (g ∷ fs))

is_tidy_lem :
    (f g : Bytes) (fs : List Bytes)
    → is_tidy (f ∷ g ∷ fs)
      ≡ (length (drop_empty (f ∷ g ∷ fs)) + to_ℕ (last_empty (f ∷ g ∷ fs)) == length (f ∷ g ∷ fs))
is_tidy_lem [] g fs = ground (arith, words_le (g ∷ fs))
is_tidy_lem (c ∷ f) g fs = ground (arith, is_full_lem (g ∷ fs))

-- The count of the words against the count of the fields.
tidy-count_one :
    (c : ℕ) (f : Bytes) → is_tidy ((c ∷ f) ∷ []) ≡ (length (drop_empty ((c ∷ f) ∷ [])) == 1 + 1 - 1)
tidy-count_one c f = ground arith

abbrev bound : List Bytes → ℕ
bound fs = length fs + to_ℕ (not (last_empty fs))

tidy-count :
    (f g : Bytes) (fs : List Bytes)
    → is_tidy (f ∷ g ∷ fs) ≡ (length (drop_empty (f ∷ g ∷ fs)) == bound (f ∷ g ∷ fs) - 1)
tidy-count f g fs = ground (arith, is_tidy_lem f g fs, words_le (f ∷ g ∷ fs))

-- A text that is not empty has two fields or more, or one that holds text.
abbrev HasText : List Bytes → Type 0
HasText [] = ⊥
HasText (f ∷ []) = f ≢ []
HasText (f ∷ g ∷ fs) = Unit

fields-HasText : (d c : ℕ) (s : Bytes) → HasText (fields d (c ∷ s))
fields-HasText d c s =
    let (fs, first, _) = fields-token d s in
    elim (Bool-cases (c == d)) [
      | inl h ↦ rw (fields-cons d c s, h, first) tt
      | inr h ↦ rw (fields-cons d c s, h, first) (HasText-cons c (token d s) fs)
    ]
  where
    HasText-cons : (c : ℕ) (f : Bytes) (fs : List Bytes) → HasText ((c ∷ f) ∷ fs)
    HasText-cons c f [] = λ e. cc
    HasText-cons c f (g ∷ fs) = tt

HasText-tidy :
    (fs : List Bytes)
    → HasText fs
    → (is_tidy fs ≡ (length (drop_empty fs) == bound fs - 1)) × (length (drop_empty fs) < bound fs)
HasText-tidy [] h = absurd h
HasText-tidy ([] ∷ []) h = absurd (h refl)
HasText-tidy ((c ∷ f) ∷ []) h = (ground arith, omega arith)
HasText-tidy (f ∷ g ∷ fs) h = (tidy-count f g fs, ground (arith, words_le (f ∷ g ∷ fs)))

slots-bound : (d c : ℕ) (s : Bytes) → slots d (c ∷ s) ≡ bound (fields d (c ∷ s))
unfolding slots
slots-bound d c s = omega (
  arith,
  length-fields d (c ∷ s) 0 0 none,
  ap to_ℕ (scan-last d c s 0 0 none tt),
  ap to_ℕ (ap (is_before_last (scan d (c ∷ s) 0 0 none).1) (zero-add (length (c ∷ s)))),
)

tidy-slots :
    (d : ℕ) (s : Bytes)
    → (is_tidy (fields d s) ≡ (length (words d s) == slots d s - 1))
      × (length (words d s) < slots d s)
unfolding words
tidy-slots d [] = (unfold slots scan fields in refl, unfold slots scan fields in omega arith)
tidy-slots d (c ∷ s) =
    rw (slots-bound d c s) (HasText-tidy (fields d (c ∷ s)) (fields-HasText d c s))

-- For every text and every delimiter, the result of str_split is the list of fields, if every field
-- but the last holds text and there is a word at all (a last field that is empty is left out);
-- otherwise an assertion fails and the process aborts. It never runs past the array.
pub str_split_lem :
    (s : Bytes) (d : ℕ) → str_split s d ≡ (if is_tidy (fields d s) then ok (words d s) else aborted)
unfolding str_split
str_split_lem s d = let (tidy, room) = tidy-slots d s in rw tidy (filled (omega (arith, room)))
  where
    filled :
        0 + length (words d s) < slots d s
        → fill (length s + 2) d (slots d s) 0 (strtok d s)
          ≡ (if length (words d s) == slots d s - 1 then ok (words d s) else aborted)
    filled h =
        fill_lem (length s + 2) d (slots d s) 0 s (strtok d s) (strtok-TakesWord d s) (omega arith)
          h
        ∙ ap (λ n. if n == slots d s - 1 then ok (words d s) else aborted)
            (zero-add (length (words d s)))
