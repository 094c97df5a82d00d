-- ===== src/Client/Options/Ignored.antt =====
-- A client whose configuration is refused (smtp_proj/client/src/client.c).
use pvs_course_project.Base.{
  ℕ, ◌<◌, ◌≡◌, refl, false, Option, none, some, Bytes, codes, Run, ok, fault, overrun, ◌==◌, not,
  ◌||◌, ap, arith, [],
}
use pvs_course_project.Base.Int.{ℤ, pos, neg, ltb_ℤ}
use pvs_course_project.Base.Reading.{stopped, finish}
use pvs_course_project.Client.Scheduler.{find_from, assign, get_mail_proc_idx}
use pvs_course_project.Client.Options.{
  log_lvl_last, Conf, unread, Owner, Started, runs, read_numbers, read_rest, client_parse_config,
  read_config, client_main,
}

module _ {Config Setting Cred : Type 0} (config_lookup : Config → Bytes → Option Setting)
    (config_lookup_int : Config → Bytes → Option ℤ)
    (config_lookup_string : Config → Bytes → Option Bytes) (lookup_int : Setting → Bytes → Option ℤ)
    (lookup_string : Setting → Bytes → Option Bytes) (gethostname : Option Bytes)
    (stat : Bytes → Option Owner) (getpwnam getgrnam : Bytes → Option ℕ)
    (setgid setuid : ℕ → Cred → Option Cred) (logs_dir_st : Owner) where
  -- The client.
  abbrev pub start : ℕ → Option (Option Config) → Cred → Run (Started Cred)
  start =
      client_main config_lookup config_lookup_int config_lookup_string lookup_int lookup_string
        gethostname stat getpwnam getgrnam setgid setuid logs_dir_st false

  -- What is read before the user is looked up.
  abbrev conf_of : Config → Bytes → ℤ → Bytes → Conf
  conf_of config hostname log_lvl mail_dir =
      let numbered =
        read_numbers config_lookup config_lookup_int config_lookup_string lookup_int lookup_string
          gethostname stat getpwnam getgrnam setgid setuid logs_dir_st config unread in
      record numbered { hostname = some hostname; log_lvl = log_lvl; mail_dir = some mail_dir }

  abbrev parse : Config → Cred → Run (ℤ × (Conf × Cred))
  parse config cred =
      client_parse_config config_lookup config_lookup_int config_lookup_string lookup_int
        lookup_string gethostname stat getpwnam getgrnam setgid setuid logs_dir_st config unread
        cred

  no_section_lem :
      (config : Config) (cred : Cred)
      → config_lookup config (codes "system") ≡ none
      → parse config cred ≡ ok (neg 1, (unread, cred))
  unfolding client_parse_config
  no_section_lem config cred h = rw (h, client_parse_config) refl

  level_lem :
      (l : ℕ)
      → l < log_lvl_last
      → (ltb_ℤ (pos l) (pos 0) || not (ltb_ℤ (pos l) (pos log_lvl_last))) ≡ false
  level_lem l h = ground arith

  unknown_user_lem :
      (config : Config) (system : Setting) (conf : Conf) (cred : Cred) (mail_dir user : Bytes)
      (l : ℕ) (mail_dir_st : Owner)
      → lookup_int system (codes "log_level") ≡ some (pos l)
      → l < log_lvl_last
      → config_lookup_string config (codes "mail_dir") ≡ some mail_dir
      → stat mail_dir ≡ some mail_dir_st
      → lookup_string system (codes "user") ≡ some user
      → getpwnam user ≡ none
      → read_rest config_lookup config_lookup_int config_lookup_string lookup_int lookup_string
          gethostname stat getpwnam getgrnam setgid setuid logs_dir_st config system
          (conf, cred)
        ≡ stopped (neg 1) (record conf { log_lvl = pos l; mail_dir = some mail_dir }, cred)
  unfolding read_rest
  unknown_user_lem config system conf cred mail_dir user l mail_dir_st level in_range dir found
        named unknown =
      rw (level, level_lem l in_range, dir, found, named, unknown) refl

  parsed_lem :
      (config : Config) (system : Setting) (cred : Cred) (hostname mail_dir user : Bytes) (l : ℕ)
      (mail_dir_st : Owner)
      → config_lookup config (codes "system") ≡ some system
      → config_lookup_string config (codes "hostname") ≡ some hostname
      → lookup_int system (codes "log_level") ≡ some (pos l)
      → l < log_lvl_last
      → config_lookup_string config (codes "mail_dir") ≡ some mail_dir
      → stat mail_dir ≡ some mail_dir_st
      → lookup_string system (codes "user") ≡ some user
      → getpwnam user ≡ none
      → parse config cred ≡ ok (neg 1, (conf_of config hostname (pos l) mail_dir, cred))
  unfolding client_parse_config read_numbers
  parsed_lem config system cred hostname mail_dir user l mail_dir_st section host level in_range dir
        found named unknown =
      rw (section, client_parse_config, host)
        (ap (λ r. ok (finish r))
          (unknown_user_lem config system
            (record (conf_of config hostname (pos 0) mail_dir) { mail_dir = none }) cred mail_dir
            user l mail_dir_st level in_range dir found named unknown))

  -- A client with an argument runs also if its configuration is refused: with no worker processes,
  -- and so with nobody to take the first mail, if the file cannot be opened, is no configuration, or
  -- has no section `system`; and with the rights of whoever started it, here for a configuration whose
  -- user does not exist.
  pub refused_config_runs :
      (argc : ℕ) (cred : Cred) (usable : ℕ → ℕ) (domain : Bytes) (bare config : Config)
      (system : Setting) (hostname mail_dir user : Bytes) (l : ℕ) (mail_dir_st : Owner)
      → (argc == 1) ≡ false
      → config_lookup bare (codes "system") ≡ none
      → config_lookup config (codes "system") ≡ some system
      → config_lookup_string config (codes "hostname") ≡ some hostname
      → lookup_int system (codes "log_level") ≡ some (pos l)
      → l < log_lvl_last
      → config_lookup_string config (codes "mail_dir") ≡ some mail_dir
      → stat mail_dir ≡ some mail_dir_st
      → lookup_string system (codes "user") ≡ some user
      → getpwnam user ≡ none
      → (start argc none cred ≡ ok (runs unread cred))
        × (start argc (some none) cred ≡ ok (runs unread cred))
        × (start argc (some (some bare)) cred ≡ ok (runs unread cred))
        × (start argc (some (some config)) cred
            ≡ ok (runs (conf_of config hostname (pos l) mail_dir) cred))
        × (get_mail_proc_idx usable domain [] ≡ fault overrun)
  unfolding client_main get_mail_proc_idx find_from assign
  refused_config_runs argc cred usable domain bare config system hostname mail_dir user l
        mail_dir_st args no_section section host level in_range dir found named unknown =
      (
        rw args refl,
        rw args refl,
        rw (args, read_config, no_section_lem bare cred no_section) refl,
        rw
            (
              args,
              read_config,
              parsed_lem config system cred hostname mail_dir user l mail_dir_st section host level
                  in_range dir found named unknown,
            )
            refl,
        refl,
      )
