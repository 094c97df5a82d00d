-- ===== src/Server/Boot/Shutdown.antt =====
-- Whom a server process tells that it ends (smtp_proj/server/src/conn.c).
use pvs_course_project.Base.{
  ℕ, Bool, not, ◌||◌, ◌&&◌, List, [], ◌∷◌, Option, none, some, Bytes, ◌==◌, if◌then◌else◌,
}
use pvs_course_project.Server.Loop.{Net, Round, is_set, fd_clr}
use pvs_course_project.Server.Boot.{LastTexts}

-- The last text that a socket gets.
unfoldable pub last_text : ℕ → LastTexts → Option Bytes
last_text fd [] = none
last_text fd ((i, text) ∷ texts) =
    let rest = last_text fd texts in if fd == i then some text else rest

-- Where a process is when the signal comes: in `select`, or behind it, after it has closed some
-- sockets, which it takes out of the copy of the set.
pub data Moment : Type 0 where
  in_select : Moment
  after_select : List ℕ → Moment

-- What `select` leaves in the copies of the active sets: the sockets that are ready, or the copies as
-- they are where it fails.
abbrev pub found : Round → Net → List ℕ × List ℕ
found round net = elim (round.select net.active_read_fds net.active_write_fds net.closed) [
  | none ↦ (net.active_read_fds, net.active_write_fds)
  | some ready ↦ ready
]

abbrev clear : List ℕ → List ℕ → List ℕ
clear [] fds = fds
clear (fd ∷ shut) fds = clear shut (fd_clr fd fds)

-- What `read_fds` and `write_fds` hold then: `conn_update` copies the active sets to them for `select`.
abbrev pub sets_at : Round → Net → Moment → List ℕ × List ℕ
sets_at round net in_select = (net.active_read_fds, net.active_write_fds)
sets_at round net (after_select shut) = let ready = found round net in (clear shut ready.0, ready.1)

-- Is the socket in a set that `select` was given, or was it ready and has not been closed?
abbrev pub is_told : Round → Net → Moment → ℕ → Bool
is_told round net in_select fd = is_set fd net.active_read_fds || is_set fd net.active_write_fds
is_told round net (after_select shut) fd =
    (is_set fd (found round net).0 && not (is_set fd shut)) || is_set fd (found round net).1
