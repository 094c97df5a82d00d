-- ===== src/Client/Collect.antt =====
-- `get_domains_mails` of smtp_proj/client/src/domain_proc.c: the mails that lie in the directories of
-- the users, gathered by their domain. What `opendir` and `readdir` give is an argument, with `none`
-- for a directory that cannot be opened.
pub mod Empty
use pvs_course_project.Base.{
  ℕ, zero, suc, ◌+◌, Bool, true, false, List, [], ◌∷◌, ◌++◌, Option, none, some, Bytes, codes,
  length, take, drop, get_elem?, set, str_eq, Run, ok, fault, null_pointer, wild_pointer, overrun,
  underrun, require, strcpy, strcat, ◌>>=◌, ◌>>◌, ltb, if◌then◌else◌,
}
use pvs_course_project.Base.Int.{ℤ, pos, neg, negsuc}
use pvs_course_project.Common.Split.{str_split, first_token}
use pvs_course_project.Common.Dirs.{
  is_entry, count_dir_entries, get_user_new_dir_full_path, get_domain_name_from_email_full_path,
}

-- `mails_paths` holds the entries of the array that have been set, from the first on.
pub record DomainMails : Type 0 where
  pub domain : Bytes
  pub mails_paths : List Bytes
  pub mails_count : ℤ

-- `char *mails_paths[100]`, and `domains_mails[MAX_MAIL_DOMAIN_NUM * 2]`
abbrev mails_size : ℕ
mails_size = 100

abbrev domains_mails_size : ℕ
domains_mails_size = 100

abbrev suc_ℤ : ℤ → ℤ
suc_ℤ (pos n) = pos (suc n)
suc_ℤ (negsuc zero) = pos 0
suc_ℤ (negsuc (suc n)) = negsuc n

-- The last entry with the domain; the loop does not stop at the first.
unfoldable find_domain : Bytes → List DomainMails → Option ℕ
find_domain name [] = none
find_domain name (d ∷ ds) =
    let rest = find_domain name ds in
    elim rest [ some j ↦ some (suc j) | none ↦ if str_eq name d.domain then some 0 else none ]

-- Is the mail among the first paths? An entry of the array that was never set is no pointer.
unfoldable find_mail : Bytes → ℕ → List Bytes → Run Bool
find_mail path zero paths = ok false
find_mail path (suc n) [] = fault wild_pointer
find_mail path (suc n) (p ∷ paths) =
    find_mail path n paths >>= λ rest. ok (if str_eq path p then true else rest)

abbrev pub rounds : ℤ → ℕ
rounds (pos n) = n
rounds (negsuc n) = 0

-- A directory of `conf.mail_dir`, and what its directory "new" holds.
abbrev pub User : Type 0
User = Bytes × Option (List Bytes)

-- `domains_mails[i].mails_count = 0`. An index below 0 lies in front of the array.
unfoldable reset_count : ℤ → List DomainMails → Run (List DomainMails)
reset_count (negsuc n) table = fault underrun
reset_count (pos i) table = elim (get_elem? table i) [
  | none ↦ fault overrun
  | some d ↦ ok (set table i (record d { mails_count = pos 0 }))
]

-- `usable n` is the size of the block that `malloc(n)` returns; `fresh` is the count in an entry that
-- has not been used, which the source does not set.
module _ (usable : ℕ → ℕ) (fresh : ℕ → ℤ) where
  -- `mails_paths[last_mail_num] = …`
  abbrev pub store_mail : Bytes → DomainMails → ℤ → Run DomainMails
  store_mail path d (negsuc n) = fault underrun
  store_mail path d (pos n) = do
    require (ltb n mails_size) overrun
    copy ← strcpy (usable (length path)) path
    ok (record d {
      mails_paths = take n d.mails_paths ++ copy ∷ drop (suc n) d.mails_paths;
      mails_count = pos (suc n);
    })

  -- The state of a domain that has an entry.
  unfoldable add_mail : Bytes → DomainMails → Run DomainMails
  unfolding find_mail
  add_mail path d = do
    known ← find_mail path (rounds d.mails_count) d.mails_paths
    (if known then ok d else store_mail path d d.mails_count)

  -- A domain that has no entry: `found_domain_num` is -1 then, and is the index of the reset.
  unfoldable new_domain : Bytes → Bytes → ℤ → List DomainMails → Run (List DomainMails)
  unfolding reset_count
  new_domain path name found_domain_num table = do
    require (ltb (length table) domains_mails_size) overrun
    copy ← strcpy (usable (length name)) name
    others ← reset_count found_domain_num table
    saved ← strcpy (usable (length path)) path
    ok (
        others
        ++ record {
          domain = copy;
          mails_paths = saved ∷ [];
          mails_count = suc_ℤ (fresh (length table));
        }
          ∷ [])

  unfoldable pub known_domain : Bytes → List DomainMails → ℕ → Run (List DomainMails)
  unfolding add_mail
  known_domain path table j = elim (get_elem? table j) [
    | none ↦ fault overrun
    | some d ↦ add_mail path d >>= λ next. ok (set table j next)
  ]

  unfoldable pub enter_mail : Bytes → Bytes → List DomainMails → Run (List DomainMails)
  unfolding find_domain new_domain known_domain
  enter_mail path name table = elim (find_domain name table) [
    | none ↦ new_domain path name (neg 1) table
    | some j ↦ known_domain path table j
  ]

  -- An entry of the directory "new" of a user.
  unfoldable pub note_mail : Bytes → Bytes → List DomainMails → Run (List DomainMails)
  unfolding enter_mail
  note_mail user_dir_new name table = do
    let block = usable (length user_dir_new + length name)
    base ← strcpy block user_dir_new
    email_full_name ← strcat block base name
    tmp_cur_mail_domain ← get_domain_name_from_email_full_path usable name
    tokens ← str_split tmp_cur_mail_domain b','
    domain ← first_token tokens
    enter_mail email_full_name domain table

  unfoldable pub note_mails : Bytes → List Bytes → List DomainMails → Run (List DomainMails)
  unfolding note_mail
  note_mails user_dir_new [] table = ok table
  note_mails user_dir_new (name ∷ names) table =
      (if is_entry name then note_mail user_dir_new name table else ok table)
      >>= note_mails user_dir_new names

  -- A directory that cannot be opened has no entries, and its null pointer is given to `closedir`.
  abbrev note_user : Bytes → Option (List Bytes) → List DomainMails → Run (List DomainMails)
  note_user user_dir_new none table = fault null_pointer
  note_user user_dir_new (some names) table =
      if ltb 0 (count_dir_entries (some names))
      then note_mails user_dir_new names table
      else ok table

  unfoldable pub visit_user : Bytes → User → List DomainMails → Run (List DomainMails)
  unfolding note_mails count_dir_entries
  visit_user mail_dir (name, listing) table =
      let visited = get_user_new_dir_full_path usable mail_dir name >>= λ user_dir_new.
      note_user user_dir_new listing table in
      if is_entry name then visited else ok table

  unfoldable pub visit_users : Bytes → List User → List DomainMails → Run (List DomainMails)
  unfolding visit_user
  visit_users mail_dir [] table = ok table
  visit_users mail_dir (user ∷ users) table =
      visit_user mail_dir user table >>= visit_users mail_dir users

  unfoldable pub get_domains_mails :
      Bytes → Option (List User) → List DomainMails → Run (List DomainMails)
  unfolding visit_users
  get_domains_mails mail_dir none table = fault null_pointer
  get_domains_mails mail_dir (some users) table = visit_users mail_dir users table
