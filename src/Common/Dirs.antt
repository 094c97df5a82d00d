-- ===== src/Common/Dirs.antt =====
-- smtp_proj/common/src/dir_utils.c. What `opendir` and `readdir` give is an argument. `malloc` is a
-- parameter: `usable n` is the size of the block that a request for `n` bytes gets.
pub mod Laws
use pvs_course_project.Base.{
  ℕ, zero, suc, ◌+◌, ◌≤◌, ◌<◌, ◌≡◌, ◌≢◌, refl, Bool, true, false, not, ◌&&◌, List, [], ◌∷◌, ◌++◌,
  Option, none, some, arith, Bytes, codes, length, length-append, Run, ok, fault, null_pointer,
  overrun, ◌>>=◌, strcpy, strcat, strcpy_fits, strcpy_overrun, str_eq, if◌then◌else◌, All, Lacks,
  append_assoc,
}
use pvs_course_project.Common.Split.{str_split}
use pvs_course_project.Common.Join.{join, IsPart, str_split-join}

-- `strcmp(name, ".") != 0 && strcmp(name, "..") != 0`
abbrev pub is_entry : Bytes → Bool
is_entry name = not (str_eq name (codes ".")) && not (str_eq name (codes ".."))

count_from : ℕ → List Bytes → ℕ
count_from n [] = n
count_from n (name ∷ names) = count_from (if is_entry name then n + 1 else n) names

-- `none` is a directory that cannot be opened.
unfoldable pub count_dir_entries : Option (List Bytes) → ℕ
unfolding count_from
count_dir_entries none = 0
count_dir_entries (some names) = count_from 0 names

-- `tokens[i]`, where the array of tokens ends with a null pointer.
load_token : List Bytes → ℕ → Run Bytes
load_token [] zero = fault null_pointer
load_token [] (suc i) = fault overrun
load_token (t ∷ ts) zero = ok t
load_token (t ∷ ts) (suc i) = load_token ts i

-- `tokens[4]`, which is freed and may be the null pointer.
has_slot : List Bytes → ℕ → Run (Unit {0})
has_slot ts zero = ok tt
has_slot [] (suc i) = fault overrun
has_slot (t ∷ ts) (suc i) = has_slot ts i

module _ (usable : ℕ → ℕ) where
  unfoldable pub get_user_new_dir_full_path : Bytes → Bytes → Run Bytes
  get_user_new_dir_full_path mail_dir user_dir_name = do
    let block = usable (length mail_dir + 2 + length user_dir_name)
    base ← strcpy block mail_dir
    named ← strcat block base user_dir_name
    user_dir_full_path ← strcat block named (codes "/")
    let new_block = usable (length user_dir_full_path + 4)
    copy ← strcpy new_block user_dir_full_path
    strcat new_block copy (codes "new/")

  unfoldable pub get_domain_name_from_email_full_path : Bytes → Run Bytes
  unfolding load_token has_slot
  get_domain_name_from_email_full_path email_path = do
    tokens ← str_split email_path b'.'
    first_part ← load_token tokens 2
    second_part ← load_token tokens 3
    let block = usable (length first_part + length second_part + 1)
    base ← strcpy block first_part
    dotted ← strcat block base (codes ".")
    mail_domain ← strcat block dotted second_part
    _ ← has_slot tokens 4
    ok mail_domain

-- The number of entries other than "." and "..".
unfoldable pub entries : List Bytes → List Bytes
entries [] = []
entries (name ∷ names) = let rest = entries names in if is_entry name then name ∷ rest else rest
