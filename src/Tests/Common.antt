-- ===== src/Tests/Common.antt =====
-- Inputs for the string and directory functions of smtp_proj/common.
use pvs_course_project.Base.{
  str_eq, Bool, true, false, not, ◌&&◌, ◌==◌, Lacks, ◌≡◌, refl, ◌⊎◌, ℕ, List, [], ◌∷◌, ◌++◌, some,
  Bytes, codes, ok, aborted, arith, if◌then◌else◌, All,
}
use pvs_course_project.Common.Strtok.{fields, words}
use pvs_course_project.Common.Split.{str_split}
use pvs_course_project.Common.Split.Laws.{is_tidy, str_split_lem}
use pvs_course_project.Common.Join.{join, IsPart, str_split-join}
use pvs_course_project.Common.Replace.{str_replace, IsFree, Splits, str_replace_cases}
use pvs_course_project.Common.Dirs.{count_dir_entries}

-- A test for a part, which a concrete text passes by computation.
unfoldable pub is_free_of : ℕ → Bytes → Bool
is_free_of d [] = true
is_free_of d (c ∷ s) = not (c == d) && is_free_of d s

are_parts : ℕ → List Bytes → Bool
unfolding is_free_of
are_parts d [] = true
are_parts d ([] ∷ ps) = false
are_parts d ((c ∷ s) ∷ ps) = is_free_of d (c ∷ s) && are_parts d ps

pub is_free_of-Lacks : (d : ℕ) (s : Bytes) → is_free_of d s ≡ true → Lacks d s
unfolding is_free_of
is_free_of-Lacks d [] h = tt
is_free_of-Lacks d (c ∷ s) h = (λ e. ground arith, is_free_of-Lacks d s (ground arith))

are_parts-IsPart : (d : ℕ) (ps : List Bytes) → are_parts d ps ≡ true → All (IsPart d) ps
unfolding are_parts
are_parts-IsPart d [] h = tt
are_parts-IsPart d ([] ∷ ps) h = ground arith
are_parts-IsPart d ((c ∷ s) ∷ ps) h = (
  (λ e. ground arith, is_free_of-Lacks d (c ∷ s) (ground arith)),
  are_parts-IsPart d ps (ground arith),
)

split_run : str_split (codes "a.bc.d") b'.' ≡ ok (codes "a" ∷ codes "bc" ∷ codes "d" ∷ [])
unfolding str_split
split_run = refl

empty_field_run : str_split (codes "a..b") b'.' ≡ aborted
unfolding str_split
empty_field_run = refl

str_split_lem_example :
    str_split (codes "a..b") b'.'
    ≡ (if is_tidy (fields b'.' (codes "a..b")) then ok (words b'.' (codes "a..b")) else aborted)
str_split_lem_example = str_split_lem (codes "a..b") b'.'

abbrev labels : List Bytes
labels = codes "ann" ∷ codes "example" ∷ codes "com" ∷ []

labels-IsPart : All (IsPart b'.') labels
unfolding are_parts
labels-IsPart = are_parts-IsPart b'.' labels refl

str_split-join_example : str_split (join b'.' labels) b'.' ≡ ok labels
str_split-join_example =
    str_split-join b'.' (codes "ann") (codes "example" ∷ codes "com" ∷ []) labels-IsPart

abbrev new_path : Bytes
new_path = codes "/m/new/1.mbox"

replaced : str_replace new_path (codes "new") (codes "cur") ≡ ok (codes "/m/cur/1.mbox")
unfolding str_replace
replaced = refl

str_replace_cases_example :
    (IsFree (codes "new") new_path × (codes "/m/cur/1.mbox" ≡ new_path))
    ⊎ ((parts : Splits (codes "new") new_path) × (codes "/m/cur/1.mbox"
          ≡ parts.0 ++ (codes "cur" ++ parts.1)))
str_replace_cases_example =
    str_replace_cases new_path (codes "new") (codes "cur") (codes "/m/cur/1.mbox") replaced

abbrev names : List Bytes
names = codes "." ∷ codes ".." ∷ codes "1.mbox" ∷ []

count_run : count_dir_entries (some names) ≡ 1
unfolding count_dir_entries str_eq
count_run = refl
