-- ===== src/Client/Options.antt =====
-- smtp_proj/client/src/client.c: the configuration and the start of the client. The lookups of
-- libconfig and the system calls are parameters. `logs_dir_st`, which is declared nowhere, is an
-- argument, the owner and the group that it gives.
pub mod Ignored
use pvs_course_project.Base.{
  ℕ, Bool, true, false, not, ◌||◌, Option, none, some, Bytes, codes, Run, ok, fault, exited,
  aborted, diverged, ◌==◌, if◌then◌else◌,
}
use pvs_course_project.Base.Int.{ℤ, pos, neg, ltb_ℤ}
use pvs_course_project.Base.Reading.{Reading, need, refuse, finish, ◌>>=◌}

-- `conf`, a global: the numbers are 0 and the texts null before the configuration is read.
pub record Conf : Type 0 where
  pub proc_cnt : ℤ
  pub retry_time : ℤ
  pub total_send_time : ℤ
  pub log_lvl : ℤ
  pub mail_dir : Option Bytes
  pub hostname : Option Bytes

abbrev pub unread : Conf
unread = record {
  proc_cnt = pos 0;
  retry_time = pos 0;
  total_send_time = pos 0;
  log_lvl = pos 0;
  mail_dir = none;
  hostname = none;
}

-- `LOG_LVL_LAST`
abbrev pub log_lvl_last : ℕ
log_lvl_last = 4

abbrev or_default : Option ℤ → ℕ → ℤ
or_default none n = pos n
or_default (some n) default = n

-- The owner and the group of a directory.
abbrev pub Owner : Type 0
Owner = ℕ × ℕ

abbrev differs : Owner → ℕ → ℕ → Bool
differs (owner, group) uid gid = not (owner == uid) || not (group == gid)

-- How `main` goes on: it is the log process, it prints its usage, or it calls run_client.
pub data Started (Cred : Type 0) : Type 0 where
  logger usage : Started Cred
  runs : Conf → Cred → Started Cred

module _ {Config Setting Cred : Type 0} (config_lookup : Config → Bytes → Option Setting)
    (config_lookup_int : Config → Bytes → Option ℤ)
    (config_lookup_string : Config → Bytes → Option Bytes) (lookup_int : Setting → Bytes → Option ℤ)
    (lookup_string : Setting → Bytes → Option Bytes) (gethostname : Option Bytes)
    (stat : Bytes → Option Owner) (getpwnam getgrnam : Bytes → Option ℕ)
    (setgid setuid : ℕ → Cred → Option Cred) (logs_dir_st : Owner) where
  -- The numbers, with PROC_CNT_DEFAULT, RETRY_TIME_DEFAULT and TOTAL_SEND_TIME_DEFAULT.
  unfoldable pub read_numbers : Config → Conf → Conf
  read_numbers config conf = record conf {
    proc_cnt = or_default (config_lookup_int config (codes "proc_cnt")) 6;
    retry_time = or_default (config_lookup_int config (codes "retry_time")) 10;
    total_send_time = or_default (config_lookup_int config (codes "total_send_time")) 120;
  }

  -- The name of the host, from the configuration or from the system.
  abbrev with_host : {A : Type 0} → Option Bytes → Option Bytes → (Bytes → A) → Run A
  with_host (some name) system_name next = ok (next name)
  with_host none (some name) next = ok (next name)
  with_host none none next = aborted

  -- The user and the group that the process changes to, and the owners of the directories.
  unfoldable change_ids : Owner → ℕ → ℕ → Conf × Cred → Reading (Conf × Cred) (Conf × Cred)
  change_ids mail_dir_st uid gid (conf, cred) = do
    grouped ← need (neg 1) (conf, cred) (setgid gid cred)
    changed ← need (neg 1) (conf, grouped) (setuid uid grouped)
    own ← refuse (neg 1) (differs logs_dir_st uid gid) (conf, changed)
    refuse (neg 1) (differs mail_dir_st uid gid) own

  -- From `log_level` on.
  unfoldable pub read_rest : Config → Setting → Conf × Cred → Reading (Conf × Cred) (Conf × Cred)
  unfolding change_ids
  read_rest config system (conf, cred) = do
    log_lvl ← need (neg 1) (conf, cred) (lookup_int system (codes "log_level"))
    _ ←
        refuse (neg 1) (ltb_ℤ log_lvl (pos 0) || not (ltb_ℤ log_lvl (pos log_lvl_last)))
          (conf, cred)
    let conf1 = record conf { log_lvl = log_lvl }
    mail_dir ← need (neg 1) (conf1, cred) (config_lookup_string config (codes "mail_dir"))
    let conf2 = record conf1 { mail_dir = some mail_dir }
    mail_dir_st ← need (neg 1) (conf2, cred) (stat mail_dir)
    user ← need (neg 1) (conf2, cred) (lookup_string system (codes "user"))
    uid ← need (neg 1) (conf2, cred) (getpwnam user)
    group ← need (neg 1) (conf2, cred) (lookup_string system (codes "group"))
    gid ← need (neg 1) (conf2, cred) (getgrnam group)
    change_ids mail_dir_st uid gid (conf2, cred)

  unfoldable pub client_parse_config : Config → Conf → Cred → Run (ℤ × (Conf × Cred))
  unfolding read_numbers read_rest
  client_parse_config config conf cred = elim (config_lookup config (codes "system")) [
    | none ↦ ok (neg 1, (conf, cred))
    | some system ↦
        let numbered = read_numbers config conf in
        with_host (config_lookup_string config (codes "hostname")) gethostname (λ hostname.
          finish (read_rest config system (record numbered { hostname = some hostname }, cred)))
  ]

  -- The file is `none` if it cannot be opened, and holds no configuration if libconfig cannot read it.
  -- The result is -1 or 0, as that of client_parse_config is.
  unfoldable pub read_config : Option (Option Config) → Cred → Run (ℤ × (Conf × Cred))
  unfolding client_parse_config
  read_config none cred = ok (neg 1, (unread, cred))
  read_config (some none) cred = ok (neg 1, (unread, cred))
  read_config (some (some config)) cred = client_parse_config config unread cred

  abbrev run_after : Run (ℤ × (Conf × Cred)) → Run (Started Cred)
  run_after (ok (code, (conf, cred))) = ok (runs conf cred)
  run_after (fault e) = fault e
  run_after (exited n) = exited n
  run_after aborted = aborted
  run_after diverged = diverged

  -- The result of read_config is not read. `child` tells whether `fork` returned 0.
  unfoldable pub client_main : Bool → ℕ → Option (Option Config) → Cred → Run (Started Cred)
  unfolding read_config
  client_main child argc file cred =
      let run = run_after (read_config file cred) in
      if child then ok logger else if argc == 1 then ok usage else run
