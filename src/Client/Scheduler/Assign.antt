-- ===== src/Client/Scheduler/Assign.antt =====
-- What the callers of `get_mail_proc_idx` of smtp_proj/client/src/scheduler.c rely on: one process for
-- a domain, and domains spread over the processes.
use pvs_course_project.Base.{
  ℕ, zero, suc, ◌≡◌, inl, inr, false, List, [], ◌∷◌, ◌++◌, none, some, Bytes, get_elem?, set,
  str_eq, str_eq-eq, ok, arith, Bool-cases, Option-cases,
}
use mathlib.Core.Path.{◌∙◌}
use pvs_course_project.Client.Scheduler.{
  Process, handles, find_from, least_loaded, get_mail_proc_idx,
}
use pvs_course_project.Client.Scheduler.Laws.{
  handles_append, find_from-set_first, known_lem, new_result, known_result,
}

handles_append_other :
    (other name : Bytes) (p : Process)
    → str_eq other name ≡ false
    → handles other (p ++ name ∷ []) ≡ handles other p
unfolding handles
handles_append_other other name [] h = ground (arith, h)
handles_append_other other name (d ∷ ds) h = ground (arith, handles_append_other other name ds h)

find_from-set_other :
    (other : Bytes) (i m : ℕ) (ps : List Process) (p q : Process)
    → get_elem? ps m ≡ some p
    → handles other q ≡ handles other p
    → find_from other i (set ps m q) ≡ find_from other i ps
unfolding find_from
find_from-set_other other i m [] p q k h = ground arith
find_from-set_other other i zero (r ∷ ps) p q k h = ground (arith, h)
find_from-set_other other i (suc m) (r ∷ ps) p q k h =
    ground (arith, find_from-set_other other (suc i) m ps p q k h)

-- A domain that has a process is not one that has none.
differ :
    (name other : Bytes) (procs : List Process) (k : ℕ)
    → find_from name 0 procs ≡ none
    → find_from other 0 procs ≡ some k
    → str_eq other name ≡ false
differ name other procs k new e = elim (Bool-cases (str_eq other name)) [
  | inr apart ↦ apart
  | inl same ↦ ground (arith, str_eq-eq other name same)
]

-- After a call for a domain, its process is found.
find_from-assigned :
    (usable : ℕ → ℕ) (name : Bytes) (procs next : List Process) (j : ℕ)
    → get_mail_proc_idx usable name procs ≡ ok (next, j)
    → find_from name 0 next ≡ some j
find_from-assigned usable name procs next j h = elim (Option-cases (find_from name 0 procs)) [
  | inl new ↦
      let (p, found, written, here) = new_result usable name procs next j new h in
      rw (written, here)
        (find_from-set_first name (least_loaded procs) procs p (p ++ name ∷ []) new found
          (handles_append name p))
  | inr (k, e) ↦ let (kept, here) = known_result usable name procs next j k e h in rw (kept, here) e
]

-- A call for a domain leaves the process of another as it is.
find_from-kept :
    (usable : ℕ → ℕ) (name other : Bytes) (procs next : List Process) (j k : ℕ)
    → find_from other 0 procs ≡ some k
    → get_mail_proc_idx usable name procs ≡ ok (next, j)
    → find_from other 0 next ≡ some k
find_from-kept usable name other procs next j k e h = elim (Option-cases (find_from name 0 procs)) [
  | inl new ↦
      let (p, found, written, here) = new_result usable name procs next j new h in
      let apart = differ name other procs k new e in
      rw written (
        find_from-set_other other 0 (least_loaded procs) procs p (p ++ name ∷ []) found
          (handles_append_other other name p apart)
        ∙ e)
  | inr (m, known) ↦ let (kept, here) = known_result usable name procs next j m known h in rw kept e
]

-- Once a domain has been given a process, every later call for the domain returns the same process
-- and assigns nothing.
get_mail_proc_idx_stable :
    (usable : ℕ → ℕ) (name : Bytes) (procs next : List Process) (j : ℕ)
    → get_mail_proc_idx usable name procs ≡ ok (next, j)
    → get_mail_proc_idx usable name next ≡ ok (next, j)
get_mail_proc_idx_stable usable name procs next j h =
    known_lem usable name next j (find_from-assigned usable name procs next j h)

-- A call for one domain moves no other domain: a domain that has a process keeps it.
get_mail_proc_idx_sticky :
    (usable : ℕ → ℕ) (name other : Bytes) (procs next : List Process) (j k : ℕ)
    → find_from other 0 procs ≡ some k
    → get_mail_proc_idx usable name procs ≡ ok (next, j)
    → get_mail_proc_idx usable other next ≡ ok (next, k)
get_mail_proc_idx_sticky usable name other procs next j k e h =
    known_lem usable other next k (find_from-kept usable name other procs next j k e h)
