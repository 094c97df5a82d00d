-- ===== src/Server/Log.antt =====
-- smtp_proj/server/src/log.c with the macro LOG of include/log.h: messages go through a queue to the
-- log process, which writes them to its file. The results of the system calls are arguments.
pub mod Laws
pub mod Order
use pvs_course_project.Base.{
  ℕ, zero, suc, ◌+◌, Bool, true, false, List, [], ◌∷◌, ◌++◌, Option, none, some, Bytes, codes,
  length, take, Run, ok, strcpy, strcat, ◌>>=◌, ltb, leb, if◌then◌else◌,
}
use pvs_course_project.Base.Int.{ℤ, pos, negsuc, neg}
use pvs_course_project.Common.Calendar.{decimal, Tm, two_digits}

pub data LogLevel : Type 0 where
  info warn error debug : LogLevel

-- The value of the level, in the order of the enumeration.
abbrev pub rank : LogLevel → ℕ
rank info = 0
rank warn = 1
rank error = 2
rank debug = 3

abbrev pub prefix : LogLevel → Bytes
prefix info = codes "INFO:"
prefix warn = codes "WARN:"
prefix error = codes "ERROR:"
prefix debug = codes "DEBUG:"

-- `sprintf(timestr, "%d-%02d-%02dT%02d:%02d:%02d", …)`
unfoldable pub time_text : Tm → Bytes
unfolding two_digits decimal
time_text now =
    decimal (pos (now.tm_year + 1900))
    ++ (b'-'
        ∷ (two_digits (now.tm_mon + 1)
            ++ (b'-'
                ∷ (two_digits now.tm_mday
                    ++ (b'T'
                        ∷ (two_digits now.tm_hour
                            ++ (b':'
                                ∷ (two_digits now.tm_min ++ (b':' ∷ two_digits now.tm_sec)))))))))

-- `char timestr[20]`
abbrev pub timestr_size : ℕ
timestr_size = 20

-- `char mtext[1024]` of a message, and `int size = 1024` in LOG
abbrev pub log_text_size : ℕ
log_text_size = 1024

-- `fwrite` writes as many bytes as the block was asked for: the text, its NUL, and what else the block
-- holds, `unset`. The file is null if it is not open.
unfoldable pub save_message : (ℕ → ℕ) → Bytes → Tm → Option Bytes → Bytes → Run (ℤ × Option Bytes)
unfolding time_text
save_message usable unset now none message = ok (neg 1, none)
save_message usable unset now (some file) [] = ok (pos 0, some file)
save_message usable unset now (some file) (c ∷ cs) = do
  let message = c ∷ cs
  timestr ← strcpy timestr_size (time_text now)
  let log_msg_size = 20 + 1 + length message
  let block = usable log_msg_size
  timed ← strcpy block timestr
  spaced ← strcat block timed (codes " ")
  log_msg ← strcat block spaced message
  ok (pos 0, some (file ++ take log_msg_size (log_msg ++ 0 ∷ unset)))

-- Which of the system calls succeed.
pub record QueueCalls : Type 0 where
  pub ftok : Bool
  pub msgget : Bool
  pub msgsnd : Bool

-- `message` is put at the end of the queue of the log process.
unfoldable pub log_message : QueueCalls → Bytes → List Bytes → Run (ℤ × List Bytes)
log_message calls message queue =
    if calls.ftok
    then (if calls.msgget
        then (strcpy log_text_size message >>= λ mtext.
            ok (if calls.msgsnd then (pos 0, queue ++ mtext ∷ []) else (neg 1, queue)))
        else ok (neg 1, queue))
    else ok (neg 1, queue)

-- What `snprintf(msg, size, "%s " format "\n", …)` leaves of the text.
abbrev pub log_text : LogLevel → Bytes → Bytes
log_text lvl text = take 1023 (prefix lvl ++ (b' ' ∷ (text ++ codes "\n")))

-- LOG; `text` is what the format and its arguments give.
unfoldable pub log : QueueCalls → LogLevel → LogLevel → Bytes → List Bytes → Run (List Bytes)
unfolding log_message
log calls cur_level lvl text queue =
    let sent = log_message calls (log_text lvl text) queue >>= λ r. ok r.1 in
    if leb (rank lvl) (rank cur_level) then sent else ok queue

-- The log process: it waits for messages, or it has come to `logger_stop`.
pub record Logger : Type 0 where
  pub file : Option Bytes
  pub stopped : Bool

abbrev is_negative : ℤ → Bool
is_negative (pos n) = false
is_negative (negsuc n) = true

-- The loop, over what `msgrcv` gives: a message and the time at which it is saved, or -1.
unfoldable pub logger_loop :
    (ℕ → ℕ) → Bytes → List (Option (Bytes × Tm)) → Option Bytes → Run Logger
unfolding save_message
logger_loop usable unset [] file = ok (record { file = file; stopped = false })
logger_loop usable unset (none ∷ received) file = ok (record { file = file; stopped = true })
logger_loop usable unset (some (mtext, now) ∷ received) file = do
  (code, saved) ← save_message usable unset now file mtext
  let rest = logger_loop usable unset received saved
  (if is_negative code then ok (record { file = saved; stopped = true }) else rest)

pub record StartCalls : Type 0 where
  pub access : Bool
  pub fopen : Bool
  pub ftok : Bool
  pub msgget : Bool
  pub sigaction : Bool

-- `content` is what the file holds, to which is appended. Where the function returns, it returns 0,
-- the value of `logger_stop`.
unfoldable logger_start :
    (ℕ → ℕ) → Bytes → StartCalls → Bytes → List (Option (Bytes × Tm)) → Run Logger
unfolding logger_loop
logger_start usable unset calls content received =
    let run = logger_loop usable unset received (some content) in
    let opened = ok (record { file = some content; stopped = true }) in
    if calls.access
    then (if calls.fopen
        then (if calls.ftok
            then (if calls.msgget then (if calls.sigaction then run else opened) else opened)
            else opened)
        else ok (record { file = none; stopped = true }))
    else ok (record { file = none; stopped = true })
