-- ===== src/Server/Maildir/Laws.antt =====
-- The directories and the file names of smtp_proj/server/src/maildir.c.
use pvs_course_project.Base.{
  ℕ, zero, suc, ◌+◌, ◌/◌, ◌%◌, ◌≤◌, ◌≡◌, refl, true, List, [], ◌∷◌, ◌++◌, arith, Bytes, codes,
  length, length-append, str_eq_self, strcpy_fits, ok, All,
}
use pvs_course_project.Base.Int.{ℤ, pos, negsuc}
use pvs_course_project.Server.Maildir.{
  Disk, Host, has_dir, ensure_dir, UserType, usr_local, ◌/-◌, maildir_base, maildir_ensure_user,
  digits, decimal, mbox_name, timestamp, filename_size, maildir_get_fname,
}

-- Directories are made, never removed, and no file is touched.
abbrev pub Grows : Disk → Disk → Type 0
Grows d e =
    (e.files ≡ d.files) × ((dir : Bytes) → has_dir dir d.dirs ≡ true → has_dir dir e.dirs ≡ true)

has_dir-cons :
    (dir d : Bytes) (dirs : List Bytes) → has_dir dir dirs ≡ true → has_dir dir (d ∷ dirs) ≡ true
unfolding has_dir
has_dir-cons dir d dirs h = ground arith

has_dir_self : (dir : Bytes) (dirs : List Bytes) → has_dir dir (dir ∷ dirs) ≡ true
unfolding has_dir
has_dir_self dir dirs = ground (arith, str_eq_self dir)

ensure_dir-Grows :
    (host : Host) (disk : Disk) (dir : Bytes) → Grows disk (ensure_dir host disk dir).0
ensure_dir-Grows host disk dir =
    unfold ensure_dir in (ground arith, λ d h. ground (arith, has_dir-cons d dir disk.dirs h))

-- The directory is there afterwards, if `mkdir` does not fail.
ensure_dir-has :
    (host : Host) (disk : Disk) (dir : Bytes)
    → host.mkdir dir ≡ true
    → has_dir dir (ensure_dir host disk dir).0.dirs ≡ true
unfolding ensure_dir
ensure_dir-has host disk dir m = ground (arith, has_dir_self dir disk.dirs)

Grows-trans : (a b c : Disk) → Grows a b → Grows b c → Grows a c
Grows-trans a b c f g = (ground (arith, f.0, g.0), λ dir h. g.1 dir (f.1 dir h))

-- The directories that a user's mail needs.
abbrev pub user_dirs : Host → Bytes → UserType → List Bytes
user_dirs host username type =
    let userdir = maildir_base host type /- username in
    userdir ∷ (userdir /- codes "new") ∷ (userdir /- codes "cur") ∷ (userdir /- codes "tmp") ∷ []

-- Each directory of a list in its turn.
ensure_all : Host → Disk → List Bytes → Disk
ensure_all host disk [] = disk
ensure_all host disk (dir ∷ dirs) = ensure_all host (ensure_dir host disk dir).0 dirs

ensure_user-all :
    (host : Host) (disk : Disk) (username : Bytes) (type : UserType)
    → maildir_ensure_user host disk username type
      ≡ ensure_all host disk (user_dirs host username type)
unfolding maildir_ensure_user ensure_all
ensure_user-all host disk username type = refl

ensure_all-Grows :
    (host : Host) (disk : Disk) (dirs : List Bytes) → Grows disk (ensure_all host disk dirs)
unfolding ensure_all
ensure_all-Grows host disk [] = (refl, λ d h. h)
ensure_all-Grows host disk (dir ∷ dirs) =
    Grows-trans disk (ensure_dir host disk dir).0
      (ensure_all host (ensure_dir host disk dir).0 dirs) (ensure_dir-Grows host disk dir)
      (ensure_all-Grows host (ensure_dir host disk dir).0 dirs)

ensure_all-has :
    (host : Host) (disk : Disk) (dirs : List Bytes)
    → All (λ d. host.mkdir d ≡ true) dirs
    → All (λ d. has_dir d (ensure_all host disk dirs).dirs ≡ true) dirs
unfolding ensure_all
ensure_all-has host disk [] m = tt
ensure_all-has host disk (dir ∷ dirs) (m, ms) =
    let made = (ensure_dir host disk dir).0 in
    (
      (ensure_all-Grows host made dirs).1 dir (ensure_dir-has host disk dir m),
      ensure_all-has host made dirs ms,
    )

-- Preparing a user's mail directory touches no file and removes no directory.
pub ensure_user-Grows :
    (host : Host) (disk : Disk) (username : Bytes) (type : UserType)
    → Grows disk (maildir_ensure_user host disk username type)
ensure_user-Grows host disk username type =
    rw (ensure_user-all host disk username type)
      (ensure_all-Grows host disk (user_dirs host username type))

-- Where `mkdir` does not fail on them, the user's directory and the directories new, cur and tmp in
-- it all exist after maildir_ensure_user; directories that were there stay, and no file is touched.
pub ensure_user-has :
    (host : Host) (disk : Disk) (username : Bytes) (type : UserType)
    → All (λ d. host.mkdir d ≡ true) (user_dirs host username type)
    → All
        (λ d. has_dir d (maildir_ensure_user host disk username type).dirs ≡ true)
        (user_dirs host username type)
      × Grows disk (maildir_ensure_user host disk username type)
ensure_user-has host disk username type m = (
  rw (ensure_user-all host disk username type)
      (ensure_all-has host disk (user_dirs host username type) m),
  ensure_user-Grows host disk username type,
)

length-digits : (f n : ℕ) → length (digits f n) ≤ f
unfolding digits
length-digits zero n = omega arith
length-digits (suc f) n =
    ground
      (arith, length-digits f (n / 10), length-append (digits f (n / 10)) ((n % 10 + b'0') ∷ []))

length-decimal : (z : ℤ) → length (decimal z) ≤ 11
unfolding decimal
length-decimal (pos n) = omega (arith, length-digits 10 n)
length-decimal (negsuc n) = omega (arith, length-digits 10 (suc n))

length-mbox_name :
    (host : Host) (domain : Bytes) → length (mbox_name host domain) ≤ 29 + length domain
length-mbox_name host domain =
    let pid = decimal (pos host.pid) in
    let time = decimal (timestamp host) in
    omega (
      arith,
      length-decimal (pos host.pid),
      length-decimal (timestamp host),
      length-append pid (b'.' ∷ (time ++ (b'.' ∷ (domain ++ codes ".mbox")))),
      length-append time (b'.' ∷ (domain ++ codes ".mbox")),
      length-append domain (codes ".mbox"),
    )

-- The name of a new mail file fits its block for every domain of 225 bytes or less, whatever the
-- process and the time; the path is then the one below the user's directory `new`.
pub get_fname_value :
    (host : Host) (username domain : Bytes)
    → length domain ≤ 225
    → maildir_get_fname host username domain
      ≡ ok (((maildir_base host usr_local /- username) /- codes "new") /- mbox_name host domain)
unfolding maildir_get_fname
get_fname_value host username domain h = rw (
    strcpy_fits filename_size (mbox_name host domain) (omega (arith, length-mbox_name host domain)))
