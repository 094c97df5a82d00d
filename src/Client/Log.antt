-- ===== src/Client/Log.antt =====
-- smtp_proj/client/src/log.c: messages go through a queue to the log process, which appends them to a
-- file for each day. The results of the system calls are arguments.
pub mod Saved
use pvs_course_project.Base.{
  ℕ, zero, suc, ◌+◌, Bool, true, false, List, [], ◌∷◌, ◌++◌, Option, none, some, Bytes, codes,
  length, str_eq, Run, ok, strcpy, strcat, ◌>>=◌, if◌then◌else◌,
}
use pvs_course_project.Base.Int.{pos}
use pvs_course_project.Common.Calendar.{decimal, Tm, two_digits}

-- `strftime` with "%H:%M:%S", and with "log_%Y-%m-%d".
unfoldable pub clock_text : Tm → Bytes
unfolding two_digits decimal
clock_text now =
    two_digits now.tm_hour ++ (b':' ∷ (two_digits now.tm_min ++ (b':' ∷ two_digits now.tm_sec)))

unfoldable pub day_text : Tm → Bytes
unfolding two_digits decimal
day_text now =
    codes "log_"
    ++ (decimal (pos (now.tm_year + 1900))
        ++ (b'-' ∷ (two_digits (now.tm_mon + 1) ++ (b'-' ∷ two_digits now.tm_mday))))

-- `char timeString[12]` and `char filename[40]`; `strftime` stores nothing that does not fit.
abbrev pub filename_size : ℕ
filename_size = 40

-- The files that have been written to, with what is appended to them.
abbrev pub Files : Type 0
Files = List (Bytes × Bytes)

unfoldable pub append_to : Bytes → Bytes → Files → Files
append_to path text [] = (path, text) ∷ []
append_to path text ((p, content) ∷ files) =
    let rest = append_to path text files in
    if str_eq path p then (p, content ++ text) ∷ files else (p, content) ∷ rest

-- `opens` tells whether `fopen` succeeds, which appends whether there is such a file or not; `usable n`
-- is the size of the block that `malloc(n)` returns. The result is 1.
unfoldable pub save_log : (ℕ → ℕ) → (Bytes → Bool) → Tm → Bytes → Bytes → Files → Run Files
unfolding clock_text day_text append_to
save_log usable opens now message logs_dir files = do
  let path_block = usable (length logs_dir + 50)
  dir ← strcpy path_block logs_dir
  dated ← strcat path_block dir (day_text now)
  log_path ← strcat path_block dated (codes ".log")
  let time_string = clock_text now
  let block = usable (length time_string + 2 + length message)
  timed ← strcpy block time_string
  spaced ← strcat block timed (codes " ")
  full_log_msg ← strcat block spaced message
  ok (if opens log_path then append_to log_path full_log_msg files else files)

-- `char mtext[500]` of a message, the queue being the one of the mails.
abbrev pub mtext_size : ℕ
mtext_size = 500

-- `sent` tells whether `msgsnd` succeeds.
unfoldable pub send_log_message : Bool → Bytes → List Bytes → Run (List Bytes)
send_log_message sent message queue =
    strcpy mtext_size message >>= λ mtext. ok (if sent then queue ++ mtext ∷ [] else queue)

-- What the loop of the log process does with the messages that it receives, each with its time.
unfoldable start_logger : (ℕ → ℕ) → (Bytes → Bool) → Bytes → List (Bytes × Tm) → Files → Run Files
unfolding save_log
start_logger usable opens base [] files = ok files
start_logger usable opens base (([], now) ∷ received) files =
    start_logger usable opens base received files
start_logger usable opens base ((c ∷ cs, now) ∷ received) files =
    save_log usable opens now (c ∷ cs) base files >>= start_logger usable opens base received
