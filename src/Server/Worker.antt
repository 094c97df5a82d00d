-- ===== src/Server/Worker.antt =====
-- The loop of a worker at the end of `conn_accept` in smtp_proj/server/src/conn.c: `conn_update` and
-- `protocol_update` in turn. Neither result is read.
use pvs_course_project.Base.{ℕ, List, [], ◌∷◌, Option, Run, ok, Returns, Returns-bind, ◌>>=◌}
use pvs_course_project.Server.Fsm.{ServerState, ServerEvent, IsAutoFsm}
use pvs_course_project.Server.Pattern.{Pcre, Patterns}
use pvs_course_project.Server.Maildir.{Disk}
use pvs_course_project.Server.Update.{Tick, protocol_update}
use pvs_course_project.Server.Update.Invariant.{TableIsValid, protocol_update-IsValid}
use pvs_course_project.Server.Loop.{Net, Round, conn_update}
use pvs_course_project.Server.Loop.Valid.{NetIsValid, conn_update-IsValid}

-- What the system calls of one turn of the loop return.
abbrev Turn : Type 0
Turn = Round × (ℕ → Tick)

module _ (server_step : ServerState → ServerEvent → Option ServerState) (pcre : Pcre)
    (patterns : Patterns) where
  unfoldable worker_turn : Turn → Net × Disk → Run (Net × Disk)
  worker_turn (round, ticks) (net, disk) = do
    (code, heard) ← conn_update round net
    (table, written) ← protocol_update server_step pcre patterns ticks 0 heard.connections disk
    ok (record heard { connections = table }, written)

  -- The turns of the loop, which has no end of its own.
  unfoldable pub worker_loop : List Turn → Net × Disk → Run (Net × Disk)
  unfolding worker_turn
  worker_loop [] p = ok p
  worker_loop (turn ∷ turns) p = worker_turn turn p >>= worker_loop turns

module _ (server_step : ServerState → ServerEvent → Option ServerState)
    (law : IsAutoFsm server_step) (pcre : Pcre) (patterns : Patterns) where
  worker_turn-IsValid :
      (turn : Turn) (net : Net) (disk : Disk)
      → NetIsValid net
      → Returns (λ p. NetIsValid p.0) (worker_turn server_step pcre patterns turn (net, disk))
  unfolding worker_turn
  worker_turn-IsValid (round, ticks) net disk v =
      Returns-bind (λ r. NetIsValid r.1) (λ p. NetIsValid p.0) (conn_update round net) _
        (conn_update-IsValid round net v)
        (λ r w.
          Returns-bind TableIsValid (λ p. NetIsValid p.0)
            (protocol_update server_step pcre patterns ticks 0 r.1.connections disk) _
            (protocol_update-IsValid server_step law pcre patterns ticks 0 r.1.connections disk w)
            (λ o u. u))

  -- However the loop of a worker goes, whatever is accepted, received and sent, and whatever the
  -- library for patterns, the host and the clock give, every connection of its table has the
  -- invariant at the end of every run of turns that returns, if each had it at the start: new
  -- connections have it when they are accepted.
  pub worker_loop-IsValid :
      (turns : List Turn) (net : Net) (disk : Disk)
      → NetIsValid net
      → Returns (λ p. NetIsValid p.0) (worker_loop server_step pcre patterns turns (net, disk))
  unfolding worker_loop
  worker_loop-IsValid [] net disk v = v
  worker_loop-IsValid (turn ∷ turns) net disk v =
      Returns-bind (λ p. NetIsValid p.0) (λ p. NetIsValid p.0)
        (worker_turn server_step pcre patterns turn (net, disk))
        (worker_loop server_step pcre patterns turns) (worker_turn-IsValid turn net disk v)
        (λ p w. worker_loop-IsValid turns p.0 p.1 w)
