-- ===== src/Tests/Options.antt =====
-- Inputs for the options, the ids, the clock and the directories of smtp_proj/server.
use pvs_course_project.Base.{
  ◌≡◌, refl, ◌≢◌, ◌↔◌, ◌⊎◌, inl, ℕ, suc, List, [], ◌∷◌, Option, some, none, Bool, true, false,
  Bytes, codes, str_eq, ok, arith, if◌then◌else◌, All,
}
use pvs_course_project.Base.Int.{ℤ, pos, neg}
use pvs_course_project.Server.Stopwatch.{stopwatch_watch, stopwatch_watch_lem}
use pvs_course_project.Server.Maildir.{
  Disk, Host, has_dir, usr_local, maildir_base, ◌/-◌, mbox_name, maildir_ensure_user,
  maildir_get_fname,
}
use pvs_course_project.Server.Maildir.Laws.{Grows, user_dirs, ensure_user-has, get_fname_value}
use pvs_course_project.Server.Config.{
  ServerOpts, server_opts_init, read_opts, read_address, read_owner, read_mail, set_id,
}
use pvs_course_project.Server.Config.Laws.{Holds, server_opts_init_lem}
use pvs_course_project.Server.Config.Ids.{set_id_refused}

stopwatch_watch_lem_example :
    stopwatch_watch
      (record { tv_sec = 5; tv_usec = 900000 })
      (record { tv_sec = 7; tv_usec = 100000 })
    ≡ pos 1200
stopwatch_watch_lem_example =
    stopwatch_watch_lem (record { tv_sec = 5; tv_usec = 900000 })
      (record { tv_sec = 7; tv_usec = 100000 }) (omega arith) (omega arith) (omega arith)
      (omega arith)

abbrev host : Host
host = record {
  maildir = codes "/m";
  mkdir = λ dir. true;
  fopen = λ path. true;
  pid = 7;
  now = record { tv_sec = 1; tv_usec = 0 };
}

abbrev empty_disk : Disk
empty_disk = record { dirs = []; files = [] }

ensure_user-has_example :
    All
      (λ d. has_dir d (maildir_ensure_user host empty_disk (codes "bob") usr_local).dirs ≡ true)
      (user_dirs host (codes "bob") usr_local)
    × Grows empty_disk (maildir_ensure_user host empty_disk (codes "bob") usr_local)
ensure_user-has_example =
    ensure_user-has host empty_disk (codes "bob") usr_local (refl, (refl, (refl, (refl, tt))))

get_fname_value_example :
    maildir_get_fname host (codes "bob") (codes "b.org")
    ≡ ok (
        ((maildir_base host usr_local /- codes "bob") /- codes "new")
        /- mbox_name host (codes "b.org"))
get_fname_value_example = get_fname_value host (codes "bob") (codes "b.org") (omega arith)

-- A configuration is a list of the names that have a value; every text is "x" and every number 25.
abbrev lookup_section : List Bytes → Bytes → Option (List Bytes)
lookup_section config name = some config

has_name : List Bytes → Bytes → Bool
has_name [] name = false
has_name (n ∷ ns) name = let rest = has_name ns name in if str_eq n name then true else rest

abbrev lookup_text : List Bytes → Bytes → Option Bytes
lookup_text config name = if has_name config name then some (codes "x") else none

abbrev lookup_number : List Bytes → Bytes → Option ℤ
lookup_number config name = if has_name config name then some (pos 25) else none

abbrev full_config : List Bytes
full_config =
    codes "bind_ip"
    ∷ codes "port"
    ∷ codes "user"
    ∷ codes "group"
    ∷ codes "process_count"
    ∷ codes "domain"
    ∷ codes "maildir"
    ∷ []

abbrev opts : ServerOpts
opts = record {
  ip = codes "x";
  port = pos 25;
  user = codes "x";
  group = codes "x";
  process_count = pos 25;
  domain = codes "x";
  maildir = codes "x";
}

config_run :
    server_opts_init lookup_section lookup_text lookup_number opts full_config ≡ (pos 0, opts)
unfolding server_opts_init read_opts read_address read_owner read_mail has_name str_eq
config_run = refl

missing_user_run :
    (server_opts_init lookup_section lookup_text lookup_number opts
      (codes "bind_ip" ∷ codes "port" ∷ [])).0
    ≡ neg 40
unfolding server_opts_init read_opts read_address read_owner read_mail has_name str_eq
missing_user_run = refl

server_opts_init_lem_example :
    (server_opts_init lookup_section lookup_text lookup_number opts full_config ≡ (pos 0, opts))
    ↔ Holds lookup_section lookup_text lookup_number full_config opts
server_opts_init_lem_example =
    server_opts_init_lem lookup_section lookup_text lookup_number opts opts full_config

-- The credentials are a user and a group; `setuid` needs root, and `setgid` root or the same group.
abbrev Cred : Type 0
Cred = ℕ × ℕ

abbrev is_root : ℕ → Bool
is_root ℕ.zero = true
is_root (suc n) = false

abbrev setuid : ℕ → Cred → Option Cred
setuid uid (user, group) = if is_root user then some (uid, group) else none

abbrev setgid : ℕ → Cred → Option Cred
setgid gid (user, group) = if is_root user then some (user, gid) else none

abbrev known : Bytes → Option ℕ
known name = some 33

sets_user : (uid : ℕ) (c d : Cred) → setuid uid c ≡ some d → d.0 ≡ uid
sets_user uid c d h = ground arith

keeps_group : (uid gid : ℕ) (c d : Cred) → setuid uid c ≡ some d → d.1 ≡ gid → c.1 ≡ gid
keeps_group uid gid c d h k = ground arith

needs_root : (gid : ℕ) (c d : Cred) → setgid gid c ≡ some d → (c.0 ≡ 0) ⊎ (c.1 ≡ gid)
needs_root gid (ℕ.zero, group) d h = inl refl
needs_root gid (suc user, group) d h = ground arith

set_id_refused_example :
    (set_id known known setuid setgid (codes "www") (codes "www") (0, 0)).0 ≢ pos 0
set_id_refused_example =
    set_id_refused known known setuid setgid (codes "www") (codes "www") (λ c. c.0)
      (λ c gid. c.1 ≡ gid) sets_user keeps_group needs_root (0, 0) 33 33 refl refl
      (λ e. ground arith) (λ e. ground arith)
