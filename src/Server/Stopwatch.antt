-- ===== src/Server/Stopwatch.antt =====
-- smtp_proj/server/src/stopwatch.c. A `timeval` holds seconds and microseconds since the epoch; the
-- time that `gettimeofday` gives is an argument.
use pvs_course_project.Base.{ℕ, ◌+◌, ◌-◌, ◌*◌, ◌/◌, ◌≤◌, ◌<◌, ◌≡◌, arith, ltb, if◌then◌else◌}
use pvs_course_project.Base.Int.{ℤ, pos, to_int, pos_part, neg_part, sub_ℕ}

pub record Timeval : Type 0 where
  pub tv_sec : ℕ
  pub tv_usec : ℕ

-- `tv_sec * 1000 + tv_usec / 1000`
abbrev pub millis : Timeval → ℕ
millis t = t.tv_sec * 1000 + t.tv_usec / 1000

unfoldable stopwatch_start : Timeval → Timeval × ℤ
stopwatch_start now = (now, to_int (pos (millis now)))

-- `sec * 1000 + usec` for a number of seconds that may be negative.
abbrev to_millis : ℤ → ℕ → ℤ
to_millis sec ms = sub_ℕ (pos_part sec * 1000 + ms) (neg_part sec * 1000)

-- With `usec` below a million on both sides, the microseconds are not negative after the borrow.
unfoldable pub stopwatch_watch : Timeval → Timeval → ℤ
stopwatch_watch tv1 tv2 =
    if ltb tv2.tv_usec tv1.tv_usec
    then to_int (
        to_millis (sub_ℕ tv2.tv_sec (tv1.tv_sec + 1))
          ((tv2.tv_usec + 1000000 - tv1.tv_usec) / 1000))
    else to_int (to_millis (sub_ℕ tv2.tv_sec tv1.tv_sec) ((tv2.tv_usec - tv1.tv_usec) / 1000))

-- The time in microseconds, which a `timeval` as `gettimeofday` gives it stands for.
abbrev micros : Timeval → ℕ
micros t = t.tv_sec * 1000000 + t.tv_usec

abbrev IsNormal : Timeval → Type 0
IsNormal t = t.tv_usec < 1000000

-- Between a start and a later time less than 2 ^ 31 milliseconds on, stopwatch_watch returns the
-- whole milliseconds that have passed.
pub stopwatch_watch_lem :
    (tv1 tv2 : Timeval)
    → IsNormal tv1
    → IsNormal tv2
    → micros tv1 ≤ micros tv2
    → (micros tv2 - micros tv1) / 1000 < 2147483648
    → stopwatch_watch tv1 tv2 ≡ pos ((micros tv2 - micros tv1) / 1000)
unfolding stopwatch_watch
stopwatch_watch_lem tv1 tv2 n1 n2 le short = ground arith
