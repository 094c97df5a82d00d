-- ===== src/Client/Master/Idle.antt =====
-- What the loop of the master of smtp_proj/client/src/scheduler.c comes to.
use pvs_course_project.Base.{ℕ, List, Option, none, some, Bytes, All}
use pvs_course_project.Client.Collect.{User}
use pvs_course_project.Client.Collect.Empty.{IsIdle}

-- The mail directory can be opened, and none of its users has a mail.
abbrev pub HasNoMail : (ℕ → ℕ) → Bytes → Option (List User) → Type 0
HasNoMail usable mail_dir none = ⊥
HasNoMail usable mail_dir (some users) = All (IsIdle usable mail_dir) users
