-- ===== src/Client/Scheduler/Laws.antt =====
-- Where `get_mail_proc_idx` of smtp_proj/client/src/scheduler.c sends the mails of a domain.
use pvs_course_project.Base.{
  ℕ, zero, suc, ◌+◌, ◌≤◌, ◌≡◌, refl, ◌⊎◌, inl, inr, true, false, List, [], ◌∷◌, ◌++◌, none, some,
  Bytes, length, get_elem?, set, str_eq_self, ok, fault, overrun, ltb, ◌&&◌, if◌then◌else◌, arith,
  Bool-cases, Option-cases, All,
}
use mathlib.Core.Path.{subst⁻¹, sym}
use pvs_course_project.Client.Scheduler.{
  domains_size, Process, handles, find_from, count_at, min_from, least_loaded, assign,
  get_mail_proc_idx,
}

pub handles_append : (name : Bytes) (p : Process) → handles name (p ++ name ∷ []) ≡ true
unfolding handles
handles_append name [] = ground (arith, str_eq_self name)
handles_append name (d ∷ ds) = ground (arith, handles_append name ds)

-- Where no process handles a domain, the process that is given it is the first to do so.
find_from-set :
    (name : Bytes) (i m : ℕ) (ps : List Process) (p q : Process)
    → find_from name i ps ≡ none
    → get_elem? ps m ≡ some p
    → handles name q ≡ true
    → find_from name i (set ps m q) ≡ some (i + m)
unfolding find_from
find_from-set name i m [] p q h e k = ground arith
find_from-set name i zero (r ∷ ps) p q h e k = ground arith
find_from-set name i (suc m) (r ∷ ps) p q h e k =
    ground (arith, find_from-set name (suc i) m ps p q)

-- The same from the first process on.
pub find_from-set_first :
    (name : Bytes) (m : ℕ) (ps : List Process) (p q : Process)
    → find_from name 0 ps ≡ none
    → get_elem? ps m ≡ some p
    → handles name q ≡ true
    → find_from name 0 (set ps m q) ≡ some m
find_from-set_first name m ps p q h e k = ground (arith, find_from-set name 0 m ps p q h e k)

-- The processes from an index on.
abbrev AreFrom : List Process → ℕ → List Process → Type 0
AreFrom all j [] = Unit
AreFrom all j (p ∷ ps) = (get_elem? all j ≡ some p) × AreFrom all (suc j) ps

pub count_at_lem :
    (all : List Process) (j : ℕ) (p : Process)
    → get_elem? all j ≡ some p
    → count_at all j ≡ length p
count_at_lem [] j p e = ground arith
count_at_lem (q ∷ all) zero p e = ground arith
count_at_lem (q ∷ all) (suc j) p e = count_at_lem all j p e

AreFrom-cons :
    (q : Process) (all ps : List Process) (j : ℕ) → AreFrom all j ps → AreFrom (q ∷ all) (suc j) ps
AreFrom-cons q all [] j h = tt
AreFrom-cons q all (p ∷ ps) j (e, h) = (e, AreFrom-cons q all ps (suc j) h)

AreFrom-self : (all : List Process) → AreFrom all 0 all
AreFrom-self [] = tt
AreFrom-self (q ∷ all) = (refl, AreFrom-cons q all all 0 (AreFrom-self all))

All-mono :
    (a b : ℕ) (ps : List Process) → a ≤ b → All (λ p. b ≤ length p) ps → All (λ p. a ≤ length p) ps
All-mono a b [] h k = tt
All-mono a b (p ∷ ps) h (k, ks) = (omega arith, All-mono a b ps h ks)

-- The index is one of the processes, has no more domains than the best so far, nor than any left.
abbrev IsLeast : List Process → ℕ → ℕ → List Process → Type 0
IsLeast all best m ps =
    ((p : Process) × (get_elem? all m ≡ some p))
    × (count_at all m ≤ count_at all best)
    × All (λ p. count_at all m ≤ length p) ps

min_from-cons :
    (all : List Process) (best j : ℕ) (p : Process) (ps : List Process)
    → min_from all best j (p ∷ ps)
      ≡ min_from all (if ltb (length p) (count_at all best) then j else best) (suc j) ps
unfolding min_from
min_from-cons all best j p ps = refl

min_from-IsLeast :
    (all : List Process) (best j : ℕ) (ps : List Process)
    → ((p : Process) × (get_elem? all best ≡ some p))
    → AreFrom all j ps
    → IsLeast all best (min_from all best j ps) ps
min_from-IsLeast all best j [] b h = unfold min_from in (b, omega arith, tt)
min_from-IsLeast all best j (p ∷ ps) b (e, h) =
    step (min_from-IsLeast all j (suc j) ps (p, e) h) (min_from-IsLeast all best (suc j) ps b h)
      (Bool-cases (ltb (length p) (count_at all best)))
  where
    step :
        IsLeast all j (min_from all j (suc j) ps) ps
        → IsLeast all best (min_from all best (suc j) ps) ps
        → (ltb (length p) (count_at all best) ≡ true) ⊎ (ltb (length p) (count_at all best) ≡ false)
        → IsLeast all best (min_from all best j (p ∷ ps)) (p ∷ ps)
    step (found, le, least) other (inl less) =
        subst⁻¹ (λ m. IsLeast all best m (p ∷ ps)) (rw (min_from-cons all best j p ps, less))
          (
            found,
            ground (arith, count_at_lem all j p e),
            (ground (arith, count_at_lem all j p e), least),
          )
    step other (found, le, least) (inr more) =
        subst⁻¹ (λ m. IsLeast all best m (p ∷ ps)) (rw (min_from-cons all best j p ps, more))
          (found, le, (ground arith, least))

-- The process that is chosen for a new domain has no more domains than any other.
pub least_loaded-IsLeast :
    (p : Process) (ps : List Process) → IsLeast (p ∷ ps) 0 (least_loaded (p ∷ ps)) (p ∷ ps)
unfolding least_loaded
least_loaded-IsLeast p ps =
    let (found, le, least) = min_from-IsLeast (p ∷ ps) 0 1 ps (p, refl) (AreFrom-self (p ∷ ps)).1 in
    (found, le, (le, least))

module _ (usable : ℕ → ℕ) (name : Bytes) (procs : List Process) where
  pub known_lem :
      (k : ℕ)
      → find_from name 0 procs ≡ some k
      → get_mail_proc_idx usable name procs ≡ ok (procs, k)
  unfolding get_mail_proc_idx
  known_lem k e = ground arith

  pub new_lem :
      find_from name 0 procs ≡ none
      → get_mail_proc_idx usable name procs ≡ assign usable name procs (least_loaded procs)
  unfolding get_mail_proc_idx
  new_lem e = ground arith

  -- An assignment that returns has put the name behind the domains of the process.
  assign_lem :
      (m : ℕ) (next : List Process) (j : ℕ)
      → assign usable name procs m ≡ ok (next, j)
      → (p : Process) × (get_elem? procs m ≡ some p)
        × (next ≡ set procs m (p ++ name ∷ []))
        × (j ≡ m)
  assign_lem m next j h = elim (Option-cases (get_elem? procs m)) [
    | inl e ↦ absurd (unfold assign in ground arith)
    | inr found ↦ (
      found.0,
      found.1,
      unfold assign in ground (arith, found.1),
      unfold assign in ground (arith, found.1),
    )
  ]

  -- It returns if the process has room for one more domain, its block is longer than the name, and
  -- there is a process 1.
  pub assign_returns :
      (m : ℕ) (p : Process)
      → get_elem? procs m ≡ some p
      → assign usable name procs m ≡ (
          if ltb (length p) domains_size
            && ltb (length name) (usable (length name))
            && ltb 1 (length procs)
          then ok (set procs m (p ++ name ∷ []), m)
          else fault overrun)
  assign_returns m p e = unfold assign in ground (arith, e)

  -- A call for a new domain that returns has put its name behind the domains of the least loaded
  -- process.
  pub new_result :
      (next : List Process) (j : ℕ)
      → find_from name 0 procs ≡ none
      → get_mail_proc_idx usable name procs ≡ ok (next, j)
      → (p : Process) × (get_elem? procs (least_loaded procs) ≡ some p)
        × (next ≡ set procs (least_loaded procs) (p ++ name ∷ []))
        × (j ≡ least_loaded procs)
  new_result next j new h = assign_lem (least_loaded procs) next j (rw (sym (new_lem new)) h)

  pub known_result :
      (next : List Process) (j k : ℕ)
      → find_from name 0 procs ≡ some k
      → get_mail_proc_idx usable name procs ≡ ok (next, j)
      → (next ≡ procs) × (j ≡ k)
  known_result next j k e h = (ground (arith, known_lem k e), ground (arith, known_lem k e))
