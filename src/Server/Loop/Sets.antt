-- ===== src/Server/Loop/Sets.antt =====
-- Sets of descriptors (smtp_proj/server/src/conn.c).
use pvs_course_project.Base.{ℕ, ◌≡◌, refl, true, not, ◌&&◌, List, [], ◌∷◌, ◌==◌, ==_self, arith}
use pvs_course_project.Server.Loop.{is_set, fd_clr}

pub is_set_self : (fd : ℕ) (fds : List ℕ) → is_set fd (fd ∷ fds) ≡ true
unfolding is_set
is_set_self fd fds = ground (arith, ==_self fd)

pub is_set-cons : (fd x : ℕ) (fds : List ℕ) → is_set fd fds ≡ true → is_set fd (x ∷ fds) ≡ true
unfolding is_set
is_set-cons fd x fds h = ground arith

pub is_set-fd_clr :
    (fd x : ℕ) (fds : List ℕ) → is_set fd (fd_clr x fds) ≡ (is_set fd fds && not (fd == x))
unfolding is_set fd_clr
is_set-fd_clr fd x [] = refl
is_set-fd_clr fd x (y ∷ fds) = ground (arith, is_set-fd_clr fd x fds)
