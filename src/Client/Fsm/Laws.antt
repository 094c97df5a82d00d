-- ===== src/Client/Fsm/Laws.antt =====
-- What the generated step of smtp_proj/client/src/client-fsm.c does, against the diagram that
-- smtp_proj/client/graphs/client.def lists.
use pvs_course_project.Base.{
  ℕ, zero, suc, ◌≡◌, refl, ◌≢◌, ◌⊎◌, Option, none, some, List, [], ◌∷◌, Run, ok, exited, ◌>>=◌,
  if◌then◌else◌, arith,
}
use pvs_course_project.Client.Fsm.{
  State, st_init, st_send_helo, st_send_mail_from, st_send_rcpt_to, st_send_data, st_send_body,
  st_send_quit, st_connect, st_invalid, st_done, Event, ev_ok, ev_error, ev_timeout,
  ev_rtime_expired, ev_multiple_rcpts, ev_multiple_emails, is_terminal, client_fsm_step,
}

-- The diagram of the definitions file. An event that it leaves out has no arrow.
abbrev pub arrow : State → Event → Option State
arrow st_init ev_ok = some st_connect
arrow st_init ev_error = some st_done
arrow st_connect ev_ok = some st_send_helo
arrow st_connect ev_error = some st_done
arrow st_send_helo ev_ok = some st_send_mail_from
arrow st_send_helo ev_error = some st_done
arrow st_send_helo ev_rtime_expired = some st_done
arrow st_send_mail_from ev_ok = some st_send_rcpt_to
arrow st_send_mail_from ev_error = some st_done
arrow st_send_rcpt_to ev_ok = some st_send_data
arrow st_send_rcpt_to ev_multiple_rcpts = some st_send_rcpt_to
arrow st_send_rcpt_to ev_error = some st_done
arrow st_send_data ev_ok = some st_send_body
arrow st_send_data ev_error = some st_done
arrow st_send_body ev_ok = some st_send_quit
arrow st_send_body ev_multiple_emails = some st_send_mail_from
arrow st_send_body ev_error = some st_done
arrow st_send_quit ev_ok = some st_init
arrow st_send_quit ev_error = some st_done
arrow st ev_timeout = some st_done
arrow _ _ = none

abbrev pub or_exit : Option State → Run State
or_exit none = exited 1
or_exit (some next) = ok next

-- The generated code is the diagram: from the terminal states a step goes back to INIT, from any
-- other it follows the arrow of the event, and where there is none the process exits with code 1.
pub client_fsm_step_lem :
    (st : State) (evt : Event)
    → client_fsm_step st evt ≡ (if is_terminal st then ok st_init else or_exit (arrow st evt))
unfolding client_fsm_step
client_fsm_step_lem st evt = ground arith

-- A chain of events.
unfoldable steps : List Event → State → Run State
steps [] st = ok st
steps (e ∷ es) st = client_fsm_step st e >>= steps es

-- The state INVALID is never entered, and DONE is entered only by an error, a timeout or the end of
-- the time for retries.
client_fsm_step_done :
    (st : State) (evt : Event)
    → (client_fsm_step st evt ≢ ok st_invalid)
      × (client_fsm_step st evt ≡ ok st_done
          → (evt ≡ ev_error) ⊎ ((evt ≡ ev_timeout) ⊎ (evt ≡ ev_rtime_expired)))
unfolding client_fsm_step
client_fsm_step_done st evt = (λ h. ground arith, λ h. ground arith)

-- The events of a session that sends one mail and then `k` more.
abbrev further_mails : ℕ → List Event → List Event
further_mails zero rest = rest
further_mails (suc k) rest = ev_ok ∷ ev_ok ∷ ev_ok ∷ ev_multiple_emails ∷ further_mails k rest

abbrev session_events : ℕ → List Event
session_events k =
    ev_ok ∷ ev_ok ∷ ev_ok ∷ further_mails k (ev_ok ∷ ev_ok ∷ ev_ok ∷ ev_ok ∷ ev_ok ∷ [])

further_mails_lem :
    (k : ℕ) (rest : List Event)
    → steps (further_mails k rest) st_send_mail_from ≡ steps rest st_send_mail_from
unfolding steps client_fsm_step
further_mails_lem zero rest = refl
further_mails_lem (suc k) rest = further_mails_lem k rest

-- A session without errors comes back to INIT, however many mails it sends.
steps-session_events : (k : ℕ) → steps (session_events k) st_init ≡ ok st_init
unfolding steps client_fsm_step
steps-session_events k = further_mails_lem k (ev_ok ∷ ev_ok ∷ ev_ok ∷ ev_ok ∷ ev_ok ∷ [])
