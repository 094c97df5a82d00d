-- ===== src/Client/Fsm.antt =====
-- smtp_proj/client/src/client-fsm.c and include/client-fsm.h, which AutoGen made from
-- smtp_proj/client/graphs/client.def. The values of the enumerations are the constructors in their
-- order.
pub mod Laws
use pvs_course_project.Base.{
  ℕ, zero, suc, Bool, true, false, List, [], ◌∷◌, Run, ok, exited, if◌then◌else◌, String,
}

pub data State : Type 0 where
  st_init st_send_helo st_send_mail_from st_send_rcpt_to : State
  st_send_data st_send_body st_send_quit st_connect st_invalid st_done : State

pub data Event : Type 0 where
  ev_ok ev_error ev_unsent_data ev_timeout ev_rtime_expired : Event
  ev_command_not_implemented ev_multiple_rcpts ev_multiple_emails ev_invalid : Event

pub data Trans : Type 0 where
  tr_connect_error tr_connect_ok tr_connect_timeout tr_init_error : Trans
  tr_init_ok tr_init_timeout tr_invalid tr_send_body_error : Trans
  tr_send_body_multiple_emails tr_send_body_ok tr_send_body_timeout tr_send_data_error : Trans
  tr_send_data_ok tr_send_data_timeout tr_send_helo_error tr_send_helo_ok : Trans
  tr_send_helo_rtime_expired tr_send_helo_timeout tr_send_mail_from_error tr_send_mail_from_ok :
      Trans
  tr_send_mail_from_timeout tr_send_quit_error tr_send_quit_ok tr_send_quit_timeout : Trans
  tr_send_rcpt_to_error tr_send_rcpt_to_multiple_rcpts tr_send_rcpt_to_ok tr_send_rcpt_to_timeout :
      Trans

pub record Transition : Type 0 where
  pub next_state : State
  pub transition : Trans

abbrev to : State → Trans → Transition
to s t = record { next_state = s; transition = t }

-- `client_fsm_trans_table`. Its rows are the states below ST_INVALID and its columns the events below
-- EV_INVALID; the last clauses stand for no entry.
abbrev trans_table : State → Event → Transition
trans_table st_init ev_ok = to st_connect tr_init_ok
trans_table st_init ev_error = to st_done tr_init_error
trans_table st_init ev_unsent_data = to st_invalid tr_invalid
trans_table st_init ev_timeout = to st_done tr_init_timeout
trans_table st_init ev_rtime_expired = to st_invalid tr_invalid
trans_table st_init ev_command_not_implemented = to st_invalid tr_invalid
trans_table st_init ev_multiple_rcpts = to st_invalid tr_invalid
trans_table st_init ev_multiple_emails = to st_invalid tr_invalid
trans_table st_send_helo ev_ok = to st_send_mail_from tr_send_helo_ok
trans_table st_send_helo ev_error = to st_done tr_send_helo_error
trans_table st_send_helo ev_unsent_data = to st_invalid tr_invalid
trans_table st_send_helo ev_timeout = to st_done tr_send_helo_timeout
trans_table st_send_helo ev_rtime_expired = to st_done tr_send_helo_rtime_expired
trans_table st_send_helo ev_command_not_implemented = to st_invalid tr_invalid
trans_table st_send_helo ev_multiple_rcpts = to st_invalid tr_invalid
trans_table st_send_helo ev_multiple_emails = to st_invalid tr_invalid
trans_table st_send_mail_from ev_ok = to st_send_rcpt_to tr_send_mail_from_ok
trans_table st_send_mail_from ev_error = to st_done tr_send_mail_from_error
trans_table st_send_mail_from ev_unsent_data = to st_invalid tr_invalid
trans_table st_send_mail_from ev_timeout = to st_done tr_send_mail_from_timeout
trans_table st_send_mail_from ev_rtime_expired = to st_invalid tr_invalid
trans_table st_send_mail_from ev_command_not_implemented = to st_invalid tr_invalid
trans_table st_send_mail_from ev_multiple_rcpts = to st_invalid tr_invalid
trans_table st_send_mail_from ev_multiple_emails = to st_invalid tr_invalid
trans_table st_send_rcpt_to ev_ok = to st_send_data tr_send_rcpt_to_ok
trans_table st_send_rcpt_to ev_error = to st_done tr_send_rcpt_to_error
trans_table st_send_rcpt_to ev_unsent_data = to st_invalid tr_invalid
trans_table st_send_rcpt_to ev_timeout = to st_done tr_send_rcpt_to_timeout
trans_table st_send_rcpt_to ev_rtime_expired = to st_invalid tr_invalid
trans_table st_send_rcpt_to ev_command_not_implemented = to st_invalid tr_invalid
trans_table st_send_rcpt_to ev_multiple_rcpts = to st_send_rcpt_to tr_send_rcpt_to_multiple_rcpts
trans_table st_send_rcpt_to ev_multiple_emails = to st_invalid tr_invalid
trans_table st_send_data ev_ok = to st_send_body tr_send_data_ok
trans_table st_send_data ev_error = to st_done tr_send_data_error
trans_table st_send_data ev_unsent_data = to st_invalid tr_invalid
trans_table st_send_data ev_timeout = to st_done tr_send_data_timeout
trans_table st_send_data ev_rtime_expired = to st_invalid tr_invalid
trans_table st_send_data ev_command_not_implemented = to st_invalid tr_invalid
trans_table st_send_data ev_multiple_rcpts = to st_invalid tr_invalid
trans_table st_send_data ev_multiple_emails = to st_invalid tr_invalid
trans_table st_send_body ev_ok = to st_send_quit tr_send_body_ok
trans_table st_send_body ev_error = to st_done tr_send_body_error
trans_table st_send_body ev_unsent_data = to st_invalid tr_invalid
trans_table st_send_body ev_timeout = to st_done tr_send_body_timeout
trans_table st_send_body ev_rtime_expired = to st_invalid tr_invalid
trans_table st_send_body ev_command_not_implemented = to st_invalid tr_invalid
trans_table st_send_body ev_multiple_rcpts = to st_invalid tr_invalid
trans_table st_send_body ev_multiple_emails = to st_send_mail_from tr_send_body_multiple_emails
trans_table st_send_quit ev_ok = to st_init tr_send_quit_ok
trans_table st_send_quit ev_error = to st_done tr_send_quit_error
trans_table st_send_quit ev_unsent_data = to st_invalid tr_invalid
trans_table st_send_quit ev_timeout = to st_done tr_send_quit_timeout
trans_table st_send_quit ev_rtime_expired = to st_invalid tr_invalid
trans_table st_send_quit ev_command_not_implemented = to st_invalid tr_invalid
trans_table st_send_quit ev_multiple_rcpts = to st_invalid tr_invalid
trans_table st_send_quit ev_multiple_emails = to st_invalid tr_invalid
trans_table st_connect ev_ok = to st_send_helo tr_connect_ok
trans_table st_connect ev_error = to st_done tr_connect_error
trans_table st_connect ev_unsent_data = to st_invalid tr_invalid
trans_table st_connect ev_timeout = to st_done tr_connect_timeout
trans_table st_connect ev_rtime_expired = to st_invalid tr_invalid
trans_table st_connect ev_command_not_implemented = to st_invalid tr_invalid
trans_table st_connect ev_multiple_rcpts = to st_invalid tr_invalid
trans_table st_connect ev_multiple_emails = to st_invalid tr_invalid
trans_table _ _ = to st_invalid tr_invalid

-- `(unsigned)client_fsm_state >= CLIENT_FSM_ST_INVALID`
abbrev pub is_terminal : State → Bool
is_terminal st_invalid = true
is_terminal st_done = true
is_terminal _ = false

abbrev is_invalid_event : Event → Bool
is_invalid_event ev_invalid = true
is_invalid_event _ = false

-- The names that `client_fsm_invalid_transition` prints.
abbrev state_name : State → String
state_name st_init = "init"
state_name st_send_helo = "send_helo"
state_name st_send_mail_from = "send_mail_from"
state_name st_send_rcpt_to = "send_rcpt_to"
state_name st_send_data = "send_data"
state_name st_send_body = "send_body"
state_name st_send_quit = "send_quit"
state_name st_connect = "connect"
state_name _ = "** OUT-OF-RANGE **"

abbrev event_name : Event → String
event_name ev_ok = "ok"
event_name ev_error = "error"
event_name ev_unsent_data = "unsent_data"
event_name ev_timeout = "timeout"
event_name ev_rtime_expired = "rtime_expired"
event_name ev_command_not_implemented = "command_not_implemented"
event_name ev_multiple_rcpts = "multiple_rcpts"
event_name ev_multiple_emails = "multiple_emails"
event_name ev_invalid = "invalid"

-- It prints to stderr and returns EXIT_FAILURE.
abbrev client_fsm_invalid_transition : State → Event → ℕ
client_fsm_invalid_transition st evt = 1

-- The entry that a step reads.
abbrev pub entry : State → Event → Transition
entry st evt = if is_invalid_event evt then to st_invalid tr_invalid else trans_table st evt

-- `switch (trans)`: every case but one keeps the next state; `default` is not reached, since every
-- value of the enumeration has a case.
abbrev act : State → Event → Trans → State → Run State
act st evt tr_invalid next = exited (client_fsm_invalid_transition st evt)
act st evt _ next = ok next

unfoldable pub client_fsm_step : State → Event → Run State
client_fsm_step st evt =
    let stepped = act st evt (entry st evt).transition (entry st evt).next_state in
    if is_terminal st then ok st_init else stepped
