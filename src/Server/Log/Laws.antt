-- ===== src/Server/Log/Laws.antt =====
-- What the log of the server holds, smtp_proj/server/src/log.c.
use pvs_course_project.Base.{
  ℕ, suc, ◌+◌, ◌≤◌, ◌≡◌, refl, ap, [], ◌∷◌, ◌++◌, some, Bytes, codes, length, length-append,
  append-nil, take, ok, strcpy_fits, arith,
}
use pvs_course_project.Base.Int.{pos}
use pvs_course_project.Common.Calendar.{decimal, Tm, two_digits}
use pvs_course_project.Common.Calendar.Laws.{
  IsTm, length-sep, length-decimal_four, length-two_digits,
}
use pvs_course_project.Server.Log.{time_text, timestr_size, save_message}

-- The parts of the time, with the shape of the text.
stamp : Bytes → Bytes → Bytes → Bytes → Bytes → Bytes → Bytes
stamp y mo d h mi s =
    y ++ (b'-' ∷ (mo ++ (b'-' ∷ (d ++ (b'T' ∷ (h ++ (b':' ∷ (mi ++ (b':' ∷ s)))))))))

length-stamp :
    (y mo d h mi s : Bytes)
    → length (stamp y mo d h mi s)
      ≡ length y + length mo + length d + length h + length mi + length s + 5
unfolding stamp
length-stamp y mo d h mi s =
    let t4 = mi ++ (b':' ∷ s) in
    let t3 = h ++ (b':' ∷ t4) in
    let t2 = d ++ (b'T' ∷ t3) in
    let t1 = mo ++ (b'-' ∷ t2) in
    omega (
      arith,
      length-sep y b'-' t1,
      length-sep mo b'-' t2,
      length-sep d b'T' t3,
      length-sep h b':' t4,
      length-sep mi b':' s,
    )

time_text-stamp :
    (now : Tm)
    → time_text now
      ≡ stamp
          (decimal (pos (now.tm_year + 1900)))
          (two_digits (now.tm_mon + 1))
          (two_digits now.tm_mday)
          (two_digits now.tm_hour)
          (two_digits now.tm_min)
          (two_digits now.tm_sec)
unfolding time_text stamp
time_text-stamp now = refl

length-time_text : (now : Tm) → IsTm now → length (time_text now) ≡ 19
length-time_text now t = rw (time_text-stamp now) (
    omega (
      arith,
      length-stamp (decimal (pos (now.tm_year + 1900))) (two_digits (now.tm_mon + 1))
          (two_digits now.tm_mday) (two_digits now.tm_hour) (two_digits now.tm_min)
          (two_digits now.tm_sec),
      length-decimal_four (now.tm_year + 1900) (omega arith) (omega (arith, t.year)),
      length-two_digits (now.tm_mon + 1) (omega (arith, t.mon)),
      length-two_digits now.tm_mday (omega (arith, t.mday)),
      length-two_digits now.tm_hour (omega (arith, t.hour)),
      length-two_digits now.tm_min (omega (arith, t.min)),
      length-two_digits now.tm_sec (omega (arith, t.sec)),
    ))

-- What is written for a message: nothing for an empty one, and otherwise the time, a space, the
-- message and the NUL at its end.
abbrev pub record_of : Bytes × Tm → Bytes
record_of ([], now) = []
record_of (c ∷ cs, now) = ((time_text now ++ codes " ") ++ (c ∷ cs)) ++ (0 ∷ [])

take_nul :
    (xs : Bytes) (b : ℕ) (ys : Bytes) → take (suc (length xs)) (xs ++ (b ∷ ys)) ≡ xs ++ (b ∷ [])
take_nul [] b ys = refl
take_nul (x ∷ xs) b ys = ap (◌∷◌ x) (take_nul xs b ys)

pub save_message_lem :
    (usable : ℕ → ℕ) (unset : Bytes) (now : Tm) (file message : Bytes)
    → ((n : ℕ) → n ≤ usable n)
    → IsTm now
    → save_message usable unset now (some file) message
      ≡ ok (pos 0, some (file ++ record_of (message, now)))
unfolding save_message
save_message_lem usable unset now file [] spare t = rw (append-nil file) refl
save_message_lem usable unset now file (c ∷ cs) spare t =
    let message : Bytes = c ∷ cs in
    let size = 20 + 1 + length message in
    let timed = time_text now in
    let spaced = timed ++ codes " " in
    let text = spaced ++ message in
    let stamped = length-time_text now t in
    let spaced_length = length-append timed (codes " ") in
    let text_length = length-append spaced message in
    let whole : size ≡ suc (length text) = omega (arith, stamped, spaced_length, text_length) in
    let room : size ≤ usable size = spare size in
    rw
      (
        strcpy_fits timestr_size timed (omega (arith, stamped)),
        strcpy_fits (usable size) timed (omega (arith, stamped, room)),
        strcpy_fits (usable size) spaced (omega (arith, stamped, spaced_length, room)),
        strcpy_fits (usable size) text (omega (arith, whole, room)),
        whole,
        take_nul text 0 unset,
      )
      refl
