-- ===== src/Client/Collect/Empty.antt =====
-- What `get_domains_mails` of smtp_proj/client/src/domain_proc.c does with the empty table, in which
-- no domain has an entry.
use pvs_course_project.Base.{ℕ, ◌≡◌, false, ◌⊎◌, List, some, Bytes, ok}
use pvs_course_project.Common.Dirs.{is_entry, count_dir_entries, get_user_new_dir_full_path}
use pvs_course_project.Client.Collect.{User}

-- A user whose directory asks for nothing: it is "." or "..", or the path of its directory "new" fits
-- its blocks, and that directory can be opened and holds no mail.
abbrev pub IsIdle : (ℕ → ℕ) → Bytes → User → Type 0
IsIdle usable mail_dir (name, listing) =
    (is_entry name ≡ false)
    ⊎ ((path : Bytes) × (names : List Bytes) × (get_user_new_dir_full_path usable mail_dir name
          ≡ ok path)
        × (listing ≡ some names)
        × (count_dir_entries (some names) ≡ 0))
