-- ===== src/Server/Maildir.antt =====
-- smtp_proj/server/src/maildir.c. The file system is a value: the directories that exist, and what
-- was appended to files. Whether `mkdir` and `fopen` succeed, the process id and the time are given
-- by the host.
pub mod Laws
use pvs_course_project.Base.{
  ℕ, zero, suc, ◌+◌, ◌*◌, ◌/◌, ◌%◌, ◌≡◌, refl, Bool, true, false, ◌||◌, List, [], ◌∷◌, ◌++◌, arith,
  Bytes, codes, str_eq, strcpy, Run, ok, ◌>>=◌, ltb, if◌then◌else◌,
}
use pvs_course_project.Base.Int.{ℤ, pos, negsuc, to_int}
unfoldable pub use pvs_course_project.Common.Calendar.{digits, decimal}
use pvs_course_project.Server.Stopwatch.{Timeval, millis}

pub record Disk : Type 0 where
  pub dirs : List Bytes
  pub files : List (Bytes × Bytes)

pub record Host : Type 0 where
  pub maildir : Bytes
  pub mkdir : Bytes → Bool
  pub fopen : Bytes → Bool
  pub pid : ℕ
  pub now : Timeval

unfoldable pub has_dir : Bytes → List Bytes → Bool
has_dir dir [] = false
has_dir dir (d ∷ dirs) = str_eq dir d || has_dir dir dirs

-- `stat` fails where there is no such directory.
unfoldable pub ensure_dir : Host → Disk → Bytes → Disk × ℤ
ensure_dir host disk dir =
    if has_dir dir disk.dirs
    then (disk, pos 0)
    else (if host.mkdir dir
        then (record disk { dirs = dir ∷ disk.dirs }, pos 0)
        else (disk, negsuc 0))

pub data UserType : Type 0 where
  usr_local usr_remote : UserType

-- `sprintf(out, "%s/%s", a, b)`; each block is allocated for the two texts, the slash and the NUL.
infixr 60 ◌/-◌
abbrev pub ◌/-◌ : Bytes → Bytes → Bytes
a /- b = a ++ codes "/" ++ b

abbrev pub maildir_base : Host → UserType → Bytes
maildir_base host usr_local = host.maildir /- codes "local"
maildir_base host usr_remote = host.maildir /- codes "remote"

abbrev is_negative : ℤ → Bool
is_negative (pos n) = false
is_negative (negsuc n) = true

unfoldable pub maildir_init : Host → Disk → Disk × ℤ
unfolding ensure_dir has_dir
maildir_init host disk =
    let (based, _) = ensure_dir host disk host.maildir in
    let (local, made) = ensure_dir host based (maildir_base host usr_local) in
    let (remote, ready) = ensure_dir host local (maildir_base host usr_remote) in
    if is_negative made
    then (local, negsuc 0)
    else (if is_negative ready then (remote, negsuc 0) else (remote, pos 0))

unfoldable pub maildir_ensure_user : Host → Disk → Bytes → UserType → Disk
unfolding ensure_dir has_dir
maildir_ensure_user host disk username type =
    let userdir = maildir_base host type /- username in
    let (d₁, _) = ensure_dir host disk userdir in
    let (d₂, _) = ensure_dir host d₁ (userdir /- codes "new") in
    let (d₃, _) = ensure_dir host d₂ (userdir /- codes "cur") in
    let (d₄, _) = ensure_dir host d₃ (userdir /- codes "tmp") in d₄

-- The size of the block for the file's name.
abbrev pub filename_size : ℕ
filename_size = 255

-- `int timestamp = tv.tv_sec * 1000 + tv.tv_usec / 1000`
abbrev pub timestamp : Host → ℤ
timestamp host = to_int (pos (millis host.now))

-- `sprintf(filename, "%d.%d.%s.mbox", pid, timestamp, domain)`
abbrev pub mbox_name : Host → Bytes → Bytes
mbox_name host domain =
    decimal (pos host.pid)
    ++ (b'.' ∷ (decimal (timestamp host) ++ (b'.' ∷ (domain ++ codes ".mbox"))))

unfoldable pub maildir_get_fname : Host → Bytes → Bytes → Run Bytes
unfolding decimal
maildir_get_fname host username domain = do
  let newdir = (maildir_base host usr_local /- username) /- codes "new"
  filename ← strcpy filename_size (mbox_name host domain)
  ok (newdir /- filename)
