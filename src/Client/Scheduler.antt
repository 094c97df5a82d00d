-- ===== src/Client/Scheduler.antt =====
-- `get_mail_proc_idx` of smtp_proj/client/src/scheduler.c: the worker process that a domain's mails go
-- to. A process is its list of domains, whose length is `domains_count`; `usable n` is the size of
-- the block that `malloc(n)` returns. The parameter `domains_count` is used by nothing.
pub mod Laws
pub mod Assign
use pvs_course_project.Base.{
  ℕ, zero, suc, ◌+◌, Bool, true, false, List, [], ◌∷◌, ◌++◌, Option, none, some, Bytes, length,
  get_elem?, set, str_eq, Run, ok, fault, overrun, strcpy, require, ◌>>=◌, ◌>>◌, ltb, if◌then◌else◌,
}

-- `char *domains[60]`
abbrev pub domains_size : ℕ
domains_size = 60

abbrev pub Process : Type 0
Process = List Bytes

-- The inner loop: does the process handle the domain?
unfoldable pub handles : Bytes → Process → Bool
handles name [] = false
handles name (d ∷ ds) = let rest = handles name ds in if str_eq name d then true else rest

-- The first process that handles the domain already.
unfoldable pub find_from : Bytes → ℕ → List Process → Option ℕ
unfolding handles
find_from name j [] = none
find_from name j (p ∷ ps) =
    let rest = find_from name (suc j) ps in if handles name p then some j else rest

-- `domains_count` of the process with an index; past the end nothing is read.
abbrev pub count_at : List Process → ℕ → ℕ
count_at [] j = 0
count_at (p ∷ ps) zero = length p
count_at (p ∷ ps) (suc j) = count_at ps j

-- `for (int j = 1; j < proc_num; j++)` over the processes from `j` on.
unfoldable pub min_from : List Process → ℕ → ℕ → List Process → ℕ
min_from all best j [] = best
min_from all best j (p ∷ ps) =
    min_from all (if ltb (length p) (count_at all best) then j else best) (suc j) ps

abbrev tail : List Process → List Process
tail [] = []
tail (p ∷ ps) = ps

unfoldable pub least_loaded : List Process → ℕ
unfolding min_from
least_loaded procs = min_from procs 0 1 (tail procs)

-- The write of the domain's name to the next entry of the process. The log message that follows reads
-- the count of process 1, which there must be.
unfoldable pub assign : (ℕ → ℕ) → Bytes → List Process → ℕ → Run (List Process × ℕ)
assign usable name procs j = elim (get_elem? procs j) [
  | none ↦ fault overrun
  | some p ↦ do
    require (ltb (length p) domains_size) overrun
    copy ← strcpy (usable (length name)) name
    require (ltb 1 (length procs)) overrun
    ok (set procs j (p ++ copy ∷ []), j)
]

unfoldable pub get_mail_proc_idx : (ℕ → ℕ) → Bytes → List Process → Run (List Process × ℕ)
get_mail_proc_idx usable domain_name mail_procs = elim (find_from domain_name 0 mail_procs) [
  | some j ↦ ok (mail_procs, j)
  | none ↦ assign usable domain_name mail_procs (least_loaded mail_procs)
]
