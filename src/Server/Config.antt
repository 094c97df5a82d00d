-- ===== src/Server/Config.antt =====
-- smtp_proj/server/src/config.c, and `set_id` and `set_id_err` of smtp_proj/server/src/server.c. The
-- lookups of libconfig are parameters that give `none` for CONFIG_FALSE and for a null section.
pub mod Refusals
pub mod Laws
pub mod Ids
use pvs_course_project.Base.{
  ℕ, Bool, true, false, ◌||◌, not, List, [], ◌∷◌, Option, none, some, Bytes, codes, if◌then◌else◌,
}
use pvs_course_project.Base.Int.{ℤ, pos, negsuc, neg, ltb_ℤ, eq_ℤ}
pub use pvs_course_project.Base.Reading.{Reading, stopped, going, ◌>>=◌, need, refuse, finish}

pub record ServerOpts : Type 0 where
  pub ip : Bytes
  pub port : ℤ
  pub user : Bytes
  pub group : Bytes
  pub process_count : ℤ
  pub domain : Bytes
  pub maildir : Bytes

pub record LogOpts : Type 0 where
  pub path : Bytes

abbrev pub out_of : ℤ → ℕ → Bool
out_of n top = ltb_ℤ n (pos 0) || ltb_ℤ (pos top) n

module _ {Config Setting : Type 0} (config_lookup : Config → Bytes → Option Setting)
    (lookup_string : Setting → Bytes → Option Bytes) (lookup_int : Setting → Bytes → Option ℤ) where
  unfoldable pub read_address : Setting → ServerOpts → Reading ServerOpts ServerOpts
  read_address system opts = do
    ip ← need (neg 20) opts (lookup_string system (codes "bind_ip"))
    let opts1 = record opts { ip = ip }
    port ← need (neg 30) opts1 (lookup_int system (codes "port"))
    refuse (neg 31) (out_of port 65535) (record opts1 { port = port })

  unfoldable pub read_owner : Setting → ServerOpts → Reading ServerOpts ServerOpts
  read_owner system opts = do
    user ← need (neg 40) opts (lookup_string system (codes "user"))
    let opts1 = record opts { user = user }
    group ← need (neg 50) opts1 (lookup_string system (codes "group"))
    let opts2 = record opts1 { group = group }
    process_count ← need (neg 60) opts2 (lookup_int system (codes "process_count"))
    refuse (neg 61) (out_of process_count 1024) (record opts2 { process_count = process_count })

  unfoldable pub read_mail : Setting → ServerOpts → Reading ServerOpts ServerOpts
  read_mail system opts = do
    domain ← need (neg 70) opts (lookup_string system (codes "domain"))
    let opts1 = record opts { domain = domain }
    maildir ← need (neg 80) opts1 (lookup_string system (codes "maildir"))
    going (record opts1 { maildir = maildir })

  unfoldable pub read_opts : ServerOpts → Config → Reading ServerOpts ServerOpts
  read_opts opts config = do
    system ← need (neg 10) opts (config_lookup config (codes "system"))
    opts1 ← read_address system opts
    opts2 ← read_owner system opts1
    read_mail system opts2

  unfoldable pub server_opts_init : ServerOpts → Config → ℤ × ServerOpts
  server_opts_init opts config = finish (read_opts opts config)

  unfoldable pub log_opts_init : LogOpts → Config → ℤ × LogOpts
  log_opts_init opts config = finish (do
    log ← need (neg 10) opts (config_lookup config (codes "log"))
    path ← need (neg 20) opts (lookup_string log (codes "log_file"))
    going (record opts { path = path }))

-- The `default:` of the texts.
abbrev pub unrecognized : Bytes
unrecognized = codes "Unrecognized error"

-- A `switch` on a return value, `-code` for the label `code`.
abbrev switch : ℤ → List (ℕ × Bytes) → Bytes
switch code [] = unrecognized
switch code ((label, text) ∷ cases) =
    let rest = switch code cases in if eq_ℤ code (neg label) then text else rest

abbrev pub server_opts_err : ℤ → Bytes
server_opts_err code = switch code (
    (0, codes "Normal execution")
    ∷ (10, codes "No {system} section in config")
    ∷ (20, codes "No {system.bind_ip} string value in config")
    ∷ (30, codes "No {system.port} integer value in config")
    ∷ (31, codes "Invalid {system.port} value in config")
    ∷ (40, codes "No {system.user} string value in config")
    ∷ (50, codes "No {system.group} string value in config")
    ∷ (60, codes "No {system.process_count} int value in config")
    ∷ (61, codes "Invalid {system.process_count} value in config")
    ∷ (70, codes "Invalid {system.domain} value in config")
    ∷ (80, codes "Invalid {system.maildir} value in config")
    ∷ [])

abbrev log_opts_err : ℤ → Bytes
log_opts_err code = switch code (
    (0, codes "Normal execution")
    ∷ (10, codes "No {log} section in config")
    ∷ (20, codes "No {log.log_file} string value in config")
    ∷ [])

abbrev set_id_err : ℤ → Bytes
set_id_err code = switch code (
    (0, codes "Normal execution")
    ∷ (10, codes "User does not exist")
    ∷ (11, codes "Can't setuid() to user")
    ∷ (20, codes "Group does not exist")
    ∷ (21, codes "Can't setuid() to group")
    ∷ [])

-- `none` for an unknown name, and for a call that returns -1. `Cred` is the credentials of the process.
module _ {Cred : Type 0} (getpwnam getgrnam : Bytes → Option ℕ)
    (setuid setgid : ℕ → Cred → Option Cred) where
  unfoldable pub set_id : Bytes → Bytes → Cred → ℤ × Cred
  set_id user group cred = finish (do
    uid ← need (neg 10) cred (getpwnam user)
    gid ← need (neg 20) cred (getgrnam group)
    cred1 ← need (neg 11) cred (setuid uid cred)
    need (neg 21) cred1 (setgid gid cred1))
