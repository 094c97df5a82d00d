-- ===== src/Server/Log/Order.antt =====
-- Messages on their way from LOG to the file (smtp_proj/server/src/log.c).
use pvs_course_project.Base.{
  ℕ, suc, true, List, [], ◌∷◌, ◌++◌, Option, some, Bytes, Run, ok, leb, ◌>>=◌, if◌then◌else◌,
}
use pvs_course_project.Common.Calendar.{Tm}
use pvs_course_project.Server.Log.{LogLevel, rank, log_text, QueueCalls, log}
use pvs_course_project.Server.Log.Laws.{record_of}

-- Messages that are logged one after another.
unfoldable pub log_all :
    QueueCalls → LogLevel → List (LogLevel × Bytes) → List Bytes → Run (List Bytes)
unfolding log
log_all calls cur_level [] queue = ok queue
log_all calls cur_level ((lvl, text) ∷ messages) queue =
    log calls cur_level lvl text queue >>= log_all calls cur_level messages

-- The texts of those that the level lets through.
abbrev pub texts : LogLevel → List (LogLevel × Bytes) → List Bytes
texts cur_level [] = []
texts cur_level ((lvl, text) ∷ messages) =
    let rest = texts cur_level messages in
    if leb (rank lvl) (rank cur_level) then log_text lvl text ∷ rest else rest

-- What the log process receives, with the time of each message.
abbrev pub received_at : (ℕ → Tm) → ℕ → List Bytes → List (Option (Bytes × Tm))
received_at clock i [] = []
received_at clock i (text ∷ queue) = some (text, clock i) ∷ received_at clock (suc i) queue

abbrev pub records_at : (ℕ → Tm) → ℕ → List Bytes → Bytes
records_at clock i [] = []
records_at clock i (text ∷ queue) = record_of (text, clock i) ++ records_at clock (suc i) queue

abbrev pub all_calls : QueueCalls
all_calls = record { ftok = true; msgget = true; msgsnd = true }
