-- ===== src/Tests/Logs.antt =====
-- Messages for the logs of smtp_proj/server and smtp_proj/client.
use pvs_course_project.Base.{
  ℕ, zero, suc, ◌≡◌, refl, true, List, [], ◌∷◌, Bytes, codes, ok, fault, overrun, arith,
  if◌then◌else◌,
}
use pvs_course_project.Common.Calendar.{Tm}
use pvs_course_project.Common.Calendar.Laws.{IsTm}
use pvs_course_project.Server.Log.{LogLevel, info, debug, warn}
use pvs_course_project.Server.Log.Order.{texts}
use pvs_course_project.Client.Log.{append_to, save_log, send_log_message}
use pvs_course_project.Client.Log.Saved.{log_path, log_line, save_log_lem}

abbrev noon : Tm
noon = record { tm_year = 118; tm_mon = 4; tm_mday = 7; tm_hour = 12; tm_min = 0; tm_sec = 5 }

noon-IsTm : IsTm noon
noon-IsTm = record {
  year = omega arith;
  mon = omega arith;
  mday = omega arith;
  hour = omega arith;
  min = omega arith;
  sec = omega arith;
}

abbrev messages : List (LogLevel × Bytes)
messages = (info, codes "SMTP server booted") ∷ (debug, codes "state") ∷ []

texts_run : texts warn messages ≡ codes "INFO: SMTP server booted\n" ∷ []
texts_run = refl

abbrev long : ℕ → Bytes
long zero = []
long (suc n) = b'x' ∷ long n

save_log_lem_example :
    (save_log (λ n. n) (λ path. true) noon (codes "INFO up\n") (codes "/logs/") []
      ≡ ok (
          if true
          then append_to (log_path (codes "/logs/") noon) (log_line noon (codes "INFO up\n")) []
          else []))
    × (send_log_message true (long 500) [] ≡ fault overrun)
save_log_lem_example =
    save_log_lem (λ n. n) (λ path. true) noon (codes "INFO up\n") (codes "/logs/") (long 500) []
      true [] (λ n. omega arith) noon-IsTm (omega arith)
