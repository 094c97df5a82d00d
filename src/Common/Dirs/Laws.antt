-- ===== src/Common/Dirs/Laws.antt =====
-- What the helpers of smtp_proj/common/src/dir_utils.c return, and when they run over their blocks.
use pvs_course_project.Base.{
  ℕ, ◌+◌, ◌≤◌, ◌<◌, ◌≡◌, List, [], ◌∷◌, ◌++◌, some, arith, Bytes, codes, length, length-append,
  length-pos, ok, fault, overrun, ◌>>=◌, strcpy, strcat, strcpy_fits, strcpy_overrun, All,
}
use pvs_course_project.Common.Join.{join, IsPart, str_split-join}
use pvs_course_project.Common.Dirs.{
  count_from, count_dir_entries, entries, get_user_new_dir_full_path,
  get_domain_name_from_email_full_path,
}

count_from_lem : (n : ℕ) (names : List Bytes) → count_from n names ≡ n + length (entries names)
unfolding count_from entries
count_from_lem n [] = omega arith
count_from_lem n (name ∷ names) =
    ground (arith, count_from_lem n names, count_from_lem (n + 1) names)

-- The count of a directory that can be opened is the number of its entries but for "." and "..".
pub count_dir_entries_lem :
    (names : List Bytes) → count_dir_entries (some names) ≡ length (entries names)
unfolding count_dir_entries
count_dir_entries_lem names = omega (arith, count_from_lem 0 names)

-- The steps of get_user_new_dir_full_path up to the last copy.
user_dir-strcpy :
    (usable : ℕ → ℕ) (mail_dir user : Bytes)
    → length mail_dir + 2 + length user ≤ usable (length mail_dir + 2 + length user)
    → get_user_new_dir_full_path usable mail_dir user ≡ (
        let base = (mail_dir ++ user) ++ codes "/" in
        strcpy (usable (length base + 4)) base >>= λ copy.
        strcat (usable (length base + 4)) copy (codes "new/"))
unfolding get_user_new_dir_full_path
user_dir-strcpy usable mail_dir user h = rw (
  strcpy_fits (usable (length mail_dir + 2 + length user)) mail_dir (omega arith),
  strcpy_fits (usable (length mail_dir + 2 + length user)) (mail_dir ++ user)
      (omega (arith, length-append mail_dir user)),
  strcpy_fits (usable (length mail_dir + 2 + length user)) ((mail_dir ++ user) ++ codes "/")
      (omega (arith, length-append mail_dir user, length-append (mail_dir ++ user) (codes "/"))),
)

-- Where the allocator gives a byte more than it is asked for, the path of the directory `new` of a
-- user is the mail directory, the user's name and "/new/".
user_new_dir_value :
    (usable : ℕ → ℕ) (mail_dir user : Bytes)
    → ((n : ℕ) → n < usable n)
    → get_user_new_dir_full_path usable mail_dir user
      ≡ ok (((mail_dir ++ user) ++ codes "/") ++ codes "new/")
user_new_dir_value usable mail_dir user spare =
    let base = (mail_dir ++ user) ++ codes "/" in
    let room : length base + 4 < usable (length base + 4) = spare (length base + 4) in
    rw
      (
        user_dir-strcpy usable mail_dir user
            (omega (arith, spare (length mail_dir + 2 + length user))),
        strcpy_fits (usable (length base + 4)) base (omega (arith, room)),
      )
      (strcpy_fits (usable (length base + 4)) (base ++ codes "new/")
        (omega (arith, room, length-append base (codes "new/"))))

-- Where the allocator gives just what it is asked for, that function writes past its block for
-- every directory and every user: the block lacks the byte for the final NUL.
user_new_dir_overrun :
    (mail_dir user : Bytes) → get_user_new_dir_full_path (λ n. n) mail_dir user ≡ fault overrun
user_new_dir_overrun mail_dir user =
    let base = (mail_dir ++ user) ++ codes "/" in
    rw
      (
        user_dir-strcpy (λ n. n) mail_dir user (omega arith),
        strcpy_fits (length base + 4) base (omega arith),
      )
      (strcpy_overrun (length base + 4) (base ++ codes "new/")
        (omega (arith, length-append base (codes "new/"))))

-- The steps of get_domain_name_from_email_full_path on a name with five parts or more.
domain-strcpy :
    (usable : ℕ → ℕ) (pid time first second last : Bytes) (more : List Bytes)
    → All (IsPart b'.') (pid ∷ time ∷ first ∷ second ∷ last ∷ more)
    → length first + length second + 1 ≤ usable (length first + length second + 1)
    → get_domain_name_from_email_full_path usable
        (join b'.' (pid ∷ time ∷ first ∷ second ∷ last ∷ more))
      ≡ (strcat (usable (length first + length second + 1)) (first ++ codes ".") second
          >>= λ mail_domain. ok mail_domain)
unfolding get_domain_name_from_email_full_path
domain-strcpy usable pid time first second last more parts h =
    let text : 0 < length second = length-pos second parts.1.1.1.0.0 in
    rw (str_split-join b'.' pid (time ∷ first ∷ second ∷ last ∷ more) parts) (
      rw (
        strcpy_fits (usable (length first + length second + 1)) first (omega arith),
        strcpy_fits (usable (length first + length second + 1)) (first ++ codes ".")
            (omega (arith, length-append first (codes "."))),
      ))

-- Of a file name whose parts between the dots are a process id, a time, two parts and at least one
-- part more, each part holding text, the domain is the third and the fourth part with a dot between
-- them, where the allocator gives a byte more than it is asked for. So it is the whole domain of a
-- mail exactly if that has two labels; the further labels of a longer one are dropped.
domain_name_value :
    (usable : ℕ → ℕ) (pid time first second last : Bytes) (more : List Bytes)
    → ((n : ℕ) → n < usable n)
    → All (IsPart b'.') (pid ∷ time ∷ first ∷ second ∷ last ∷ more)
    → get_domain_name_from_email_full_path usable
        (join b'.' (pid ∷ time ∷ first ∷ second ∷ last ∷ more))
      ≡ ok ((first ++ codes ".") ++ second)
domain_name_value usable pid time first second last more spare parts =
    let n = length first + length second + 1 in
    let room : n < usable n = spare n in
    rw (
      domain-strcpy usable pid time first second last more parts (omega (arith, room)),
      strcpy_fits (usable n) ((first ++ codes ".") ++ second) (
          omega (
            arith,
            room,
            length-append first (codes "."),
            length-append (first ++ codes ".") second,
          )),
    )

-- Where the allocator gives just what it is asked for, the copy of the domain of such a name runs
-- over its block: the block lacks the byte for the final NUL.
domain_name_overrun :
    (pid time first second last : Bytes) (more : List Bytes)
    → All (IsPart b'.') (pid ∷ time ∷ first ∷ second ∷ last ∷ more)
    → get_domain_name_from_email_full_path
        (λ n. n)
        (join b'.' (pid ∷ time ∷ first ∷ second ∷ last ∷ more))
      ≡ fault overrun
domain_name_overrun pid time first second last more parts = rw (
  domain-strcpy (λ n. n) pid time first second last more parts (omega arith),
  strcpy_overrun (length first + length second + 1) ((first ++ codes ".") ++ second)
      (omega (arith, length-append first (codes "."), length-append (first ++ codes ".") second)),
)
