-- ===== src/Client/Log/Saved.antt =====
-- The copies of the log of the client (smtp_proj/client/src/log.c).
use pvs_course_project.Base.{
  ℕ, ◌+◌, ◌≤◌, ◌≡◌, refl, List, ◌∷◌, ◌++◌, Bytes, codes, length, length-append, Bool, ok, fault,
  overrun, strcpy_fits, strcpy_overrun, if◌then◌else◌, arith,
}
use pvs_course_project.Base.Int.{pos}
use pvs_course_project.Common.Calendar.{decimal, Tm, two_digits}
use pvs_course_project.Common.Calendar.Laws.{
  IsTm, length-sep, length-decimal_four, length-two_digits,
}
use pvs_course_project.Client.Log.{
  clock_text, day_text, Files, append_to, save_log, mtext_size, send_log_message,
}

length-clock_text : (now : Tm) → IsTm now → length (clock_text now) ≡ 8
unfolding clock_text
length-clock_text now t =
    let rest = two_digits now.tm_min ++ (b':' ∷ two_digits now.tm_sec) in
    omega (
      arith,
      length-sep (two_digits now.tm_hour) b':' rest,
      length-sep (two_digits now.tm_min) b':' (two_digits now.tm_sec),
      length-two_digits now.tm_hour (omega (arith, t.hour)),
      length-two_digits now.tm_min (omega (arith, t.min)),
      length-two_digits now.tm_sec (omega (arith, t.sec)),
    )

length-day_text : (now : Tm) → IsTm now → length (day_text now) ≡ 14
unfolding day_text
length-day_text now t =
    let day = two_digits (now.tm_mon + 1) ++ (b'-' ∷ two_digits now.tm_mday) in
    let year = decimal (pos (now.tm_year + 1900)) in
    omega (
      arith,
      length-append (codes "log_") (year ++ (b'-' ∷ day)),
      length-sep year b'-' day,
      length-sep (two_digits (now.tm_mon + 1)) b'-' (two_digits now.tm_mday),
      length-decimal_four (now.tm_year + 1900) (omega arith) (omega (arith, t.year)),
      length-two_digits (now.tm_mon + 1) (omega (arith, t.mon)),
      length-two_digits now.tm_mday (omega (arith, t.mday)),
    )

-- The file of a day, and the line of a message.
abbrev pub log_path : Bytes → Tm → Bytes
log_path logs_dir now = (logs_dir ++ day_text now) ++ codes ".log"

abbrev pub log_line : Tm → Bytes → Bytes
log_line now message = (clock_text now ++ codes " ") ++ message

-- The log process writes each message that it has received: where `malloc` gives what it is asked for
-- and the year has four digits, no copy runs over its block, and the line of the message, its time
-- and a space in front of it, is appended to the file of its day if that can be opened. But a message
-- of 500 bytes or more, of which the macro LOG makes up to 1023, runs over the message of the queue
-- when it is sent.
pub save_log_lem :
    (usable : ℕ → ℕ) (opens : Bytes → Bool) (now : Tm) (message logs_dir long : Bytes)
    (files : Files) (sent : Bool) (queue : List Bytes)
    → ((n : ℕ) → n ≤ usable n)
    → IsTm now
    → 500 ≤ length long
    → (save_log usable opens now message logs_dir files
        ≡ ok (
            if opens (log_path logs_dir now)
            then append_to (log_path logs_dir now) (log_line now message) files
            else files))
      × (send_log_message sent long queue ≡ fault overrun)
unfolding save_log send_log_message
save_log_lem usable opens now message logs_dir long files sent queue spare t over =
    let clock = clock_text now in
    let path_room = spare (length logs_dir + 50) in
    let room = spare (length clock + 2 + length message) in
    let dated = length-append logs_dir (day_text now) in
    let spaced = length-append clock (codes " ") in
    (
      rw
          (
            strcpy_fits (usable (length logs_dir + 50)) logs_dir (omega (arith, path_room)),
            strcpy_fits (usable (length logs_dir + 50)) (logs_dir ++ day_text now)
                (omega (arith, path_room, dated, length-day_text now t)),
            strcpy_fits (usable (length logs_dir + 50)) (log_path logs_dir now) (
                omega (
                  arith,
                  path_room,
                  dated,
                  length-day_text now t,
                  length-append (logs_dir ++ day_text now) (codes ".log"),
                )),
            strcpy_fits (usable (length clock + 2 + length message)) clock (omega (arith, room)),
            strcpy_fits (usable (length clock + 2 + length message)) (clock ++ codes " ")
                (omega (arith, room, spaced)),
            strcpy_fits (usable (length clock + 2 + length message)) (log_line now message)
                (omega (arith, room, spaced, length-append (clock ++ codes " ") message)),
          )
          refl,
      rw (strcpy_overrun mtext_size long over) refl,
    )
