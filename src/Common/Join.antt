-- ===== src/Common/Join.antt =====
-- Texts put together from parts, which `str_split` (smtp_proj/common/src/string_utils.c) takes apart.
use pvs_course_project.Base.{
  ℕ, ◌≡◌, ◌≢◌, refl, true, List, [], ◌∷◌, ◌++◌, arith, Bytes, Lacks, All, ok,
}
use pvs_course_project.Common.Strtok.{fields, drop_empty, words}
use pvs_course_project.Common.Split.{str_split}
use pvs_course_project.Common.Split.Laws.{str_split_lem, is_full_but_last, is_tidy}

unfoldable pub join : ℕ → List Bytes → Bytes
join d [] = []
join d (p ∷ []) = p
join d (p ∷ q ∷ ps) = p ++ (d ∷ join d (q ∷ ps))

-- Each part holds text, and no delimiter.
abbrev pub IsPart : ℕ → Bytes → Type 0
IsPart d p = (p ≢ []) × Lacks d p

fields-append : (d : ℕ) (p rest : Bytes) → Lacks d p → fields d (p ++ d ∷ rest) ≡ p ∷ fields d rest
unfolding fields
fields-append d [] rest h = ground arith
fields-append d (c ∷ p) rest h = ground (arith, fields-append d p rest h.1)

fields_of_Lacks : (d : ℕ) (p : Bytes) → Lacks d p → fields d p ≡ p ∷ []
unfolding fields
fields_of_Lacks d [] h = refl
fields_of_Lacks d (c ∷ p) h = ground (arith, fields_of_Lacks d p h.1)

fields-join :
    (d : ℕ) (p : Bytes) (ps : List Bytes)
    → All (IsPart d) (p ∷ ps)
    → fields d (join d (p ∷ ps)) ≡ p ∷ ps
unfolding join
fields-join d p [] h = fields_of_Lacks d p h.0.1
fields-join d p (q ∷ ps) h =
    ground (arith, fields-append d p (join d (q ∷ ps)) h.0.1, fields-join d q ps h.1)

drop_empty_of_parts : (d : ℕ) (ps : List Bytes) → All (IsPart d) ps → drop_empty ps ≡ ps
drop_empty_of_parts d [] h = refl
drop_empty_of_parts d ([] ∷ ps) h = absurd (h.0.0 refl)
drop_empty_of_parts d ((c ∷ p) ∷ ps) h = ground (arith, drop_empty_of_parts d ps h.1)

is_full_of_parts : (d : ℕ) (ps : List Bytes) → All (IsPart d) ps → is_full_but_last ps ≡ true
is_full_of_parts d [] h = refl
is_full_of_parts d (p ∷ []) h = refl
is_full_of_parts d ([] ∷ q ∷ ps) h = absurd (h.0.0 refl)
is_full_of_parts d ((c ∷ p) ∷ q ∷ ps) h = is_full_of_parts d (q ∷ ps) h.1

is_tidy_of_parts :
    (d : ℕ) (p : Bytes) (ps : List Bytes) → All (IsPart d) (p ∷ ps) → is_tidy (p ∷ ps) ≡ true
is_tidy_of_parts d [] ps h = absurd (h.0.0 refl)
is_tidy_of_parts d (c ∷ p) ps h = is_full_of_parts d ps h.1

words-join :
    (d : ℕ) (p : Bytes) (ps : List Bytes)
    → All (IsPart d) (p ∷ ps)
    → words d (join d (p ∷ ps)) ≡ p ∷ ps
unfolding words
words-join d p ps h = rw (fields-join d p ps h) (drop_empty_of_parts d (p ∷ ps) h)

-- Splitting a text that was joined from one part or more gives the parts back, if each part holds
-- text and none holds the delimiter.
pub str_split-join :
    (d : ℕ) (p : Bytes) (ps : List Bytes)
    → All (IsPart d) (p ∷ ps)
    → str_split (join d (p ∷ ps)) d ≡ ok (p ∷ ps)
str_split-join d p ps h =
    rw (str_split_lem (join d (p ∷ ps)) d, fields-join d p ps h, is_tidy_of_parts d p ps h)
      (rw (words-join d p ps h))
