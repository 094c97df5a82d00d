-- ===== src/Server/Boot/Outcome.antt =====
-- What becomes of `main` (smtp_proj/server/src/server.c), whatever its calls return.
use pvs_course_project.Base.{
  ◌≡◌, Bool, true, false, ◌||◌, List, [], ◌∷◌, Run, ok, fault, exited, aborted, diverged, All, ◌⊎◌,
}
use pvs_course_project.Base.Int.{ℤ, neg, eq_ℤ}
use pvs_course_project.Server.Boot.{
  MainCalls, MainEnd, serves, logs, ends, master, worker, Forked, fork_failed, forked, is_prepared,
  is_bound, is_zero,
}
use pvs_course_project.Server.Boot.Ends.{IsStarted}

-- -1, which is every process for `kill`, as 0 is the group of the caller.
abbrev is_every : ℤ → Bool
is_every pid = eq_ℤ pid (neg 1)

unfoldable pub any : (ℤ → Bool) → List ℤ → Bool
any p [] = false
any p (x ∷ xs) = p x || any p xs

abbrev IsForked : Forked → Type 0
IsForked (fork_failed pids) = any is_every pids ≡ true
IsForked (forked worker pids) = any is_zero pids ≡ true
IsForked (forked master pids) = All IsStarted pids

-- The ways in which `main` may return.
abbrev IsOutcome : MainCalls → MainEnd → Type 0
IsOutcome calls (serves master pids) =
    (is_prepared calls ≡ true)
    × (is_bound calls.accept calls.server_opts_init.1 ≡ true)
    × IsStarted calls.log_pid
    × All IsStarted pids
IsOutcome calls (serves worker pids) =
    (is_prepared calls ≡ true)
    × (is_bound calls.accept calls.server_opts_init.1 ≡ true)
    × IsStarted calls.log_pid
    × (any is_zero pids ≡ true)
IsOutcome calls (logs logger) =
    (is_prepared calls ≡ true) × (is_zero calls.log_pid ≡ true) × (logger.stopped ≡ false)
IsOutcome calls (ends code pids) =
    (code ≡ 1)
    × ((any is_zero pids ≡ true)
        ⊎ ((any is_every pids ≡ true)
            ⊎ (IsStarted calls.log_pid
                × (is_bound calls.accept calls.server_opts_init.1 ≡ false)
                × (pids ≡ calls.log_pid ∷ calls.unset))))

-- `main` returns in one of these ways, or `handle_signal` ends it.
abbrev pub IsResult : MainCalls → Run MainEnd → Type 0
IsResult calls (ok r) = IsOutcome calls r
IsResult calls (exited n) = (n ≡ 0) × (calls.accept.sigaction ≡ false)
IsResult calls (fault e) = ⊥
IsResult calls aborted = ⊥
IsResult calls diverged = ⊥
