-- ===== src/Client/Master/Wait.antt =====
-- `wait_for` of smtp_proj/client/src/scheduler.c, the pause between two turns of the master.
use pvs_course_project.Base.{
  ℕ, zero, suc, ◌+◌, ◌%◌, ◌^◌, ◌<◌, Option, none, some, ltb, if◌then◌else◌,
}

-- `clock k` is what call `k` of `time` returns, in seconds. The loop has fuel; the result is the call
-- at which it ends.
unfoldable wait_from : (ℕ → ℕ) → ℕ → ℕ → ℕ → Option ℕ
wait_from clock ret_time zero k = none
wait_from clock ret_time (suc fuel) k =
    let rest = wait_from clock ret_time fuel (suc k) in
    if ltb (clock k) ret_time then rest else some k

-- `unsigned int retTime = time(0) + secs`
abbrev pub ret_time : (ℕ → ℕ) → ℕ → ℕ
ret_time clock secs = (clock 0 + secs) % 2 ^ 32

unfoldable pub wait_for : (ℕ → ℕ) → ℕ → ℕ → Option ℕ
unfolding wait_from
wait_for clock fuel secs = wait_from clock (ret_time clock secs) fuel 1

-- `n` calls from `k` on give a time before the end.
abbrev pub AreEarly : (ℕ → ℕ) → ℕ → ℕ → ℕ → Type 0
AreEarly clock ret zero k = Unit
AreEarly clock ret (suc n) k = (clock k < ret) × AreEarly clock ret n (suc k)
