-- ===== src/Server/Boot/Ends.antt =====
-- The processes that get SIGINT when the server does not start (smtp_proj/server/src/server.c).
use pvs_course_project.Base.{ℕ, zero, suc, ◌≡◌, refl, ap, false, List, [], ◌∷◌, ◌++◌, length, set}
use pvs_course_project.Base.Int.{ℤ, neg, eq_ℤ}
use pvs_course_project.Server.Boot.{is_zero}

-- The results of `fork` for the workers from `i` on that were started.
abbrev pub started : (ℕ → ℤ) → ℕ → ℕ → List ℤ
started fork i zero = []
started fork i (suc k) = fork i ∷ started fork (suc i) k

-- Neither the child nor a failure.
abbrev pub IsStarted : ℤ → Type 0
IsStarted r = (is_zero r ≡ false) × (eq_ℤ r (neg 1) ≡ false)

pub set-append :
    (before : List ℤ) (x v : ℤ) (rest : List ℤ) (i : ℕ)
    → i ≡ length before
    → set (before ++ x ∷ rest) i v ≡ before ++ v ∷ rest
set-append [] x v rest i e = rw e refl
set-append (b ∷ before) x v rest i e =
    rw e (ap (◌∷◌ b) (set-append before x v rest (length before) refl))
