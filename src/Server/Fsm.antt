-- ===== src/Server/Fsm.antt =====
-- The server's state machine, smtp_proj/server/proto/smtp.tpl. The build generates `server_step` from
-- that file by AutoGen; the generated code is a parameter, and `IsAutoFsm` states what the template
-- documents of it.
use mathlib.Core.Path.{fun_ext}
use pvs_course_project.Base.{◌≡◌, refl, Bool, true, false, Option, none, some, if◌then◌else◌, arith}

pub data ServerState : Type 0 where
  init connected disconnected ready : ServerState
  process_helo process_ehlo process_quit process_vrfy process_rset process_timeout : ServerState
  expect_mail process_mail expect_rcpt process_rcpt expect_data process_data : ServerState
  expect_data_recv process_data_recv process_data_end invalid done : ServerState

pub data ServerEvent : Type 0 where
  connect timeout okay err quit rset vrfy helo ehlo mail rcpt data_cmd data_recv data_end :
      ServerEvent

-- The transitions of the definitions file.
abbrev pub transition : ServerState → ServerEvent → Option ServerState
transition init connect = some connected
transition connected okay = some ready
transition disconnected okay = some done
transition connected quit = some process_quit
transition ready quit = some process_quit
transition expect_mail quit = some process_quit
transition expect_rcpt quit = some process_quit
transition expect_data quit = some process_quit
transition process_quit okay = some disconnected
transition ready timeout = some process_timeout
transition expect_mail timeout = some process_timeout
transition expect_rcpt timeout = some process_timeout
transition expect_data timeout = some process_timeout
transition process_timeout okay = some disconnected
transition ready rset = some process_rset
transition expect_mail rset = some process_rset
transition expect_rcpt rset = some process_rset
transition expect_data rset = some process_rset
transition process_rset okay = some ready
transition ready vrfy = some process_vrfy
transition expect_mail vrfy = some process_vrfy
transition expect_rcpt vrfy = some process_vrfy
transition expect_data vrfy = some process_vrfy
transition ready helo = some process_helo
transition process_helo err = some ready
transition process_helo okay = some expect_mail
transition ready ehlo = some process_ehlo
transition process_ehlo err = some ready
transition process_ehlo okay = some expect_mail
transition expect_mail mail = some process_mail
transition process_mail err = some expect_mail
transition process_mail okay = some expect_rcpt
transition expect_rcpt rcpt = some process_rcpt
transition process_rcpt err = some expect_rcpt
transition process_rcpt okay = some expect_data
transition expect_data data_cmd = some process_data
transition process_data err = some expect_data
transition process_data okay = some expect_data_recv
transition expect_data_recv data_recv = some process_data_recv
transition expect_data_recv data_end = some process_data_end
transition process_data_recv err = some expect_data_recv
transition process_data_recv okay = some expect_data_recv
transition process_data_end okay = some expect_mail
transition _ _ = none

abbrev pub is_terminal : ServerState → Bool
is_terminal invalid = true
is_terminal done = true
is_terminal _ = false

-- What AutoFSM documents of the function that it generates, `none` being `exit(EXIT_FAILURE)`: it
-- follows the listed transitions, ends the process on any other event, and leaves the two terminal
-- states for INIT.
pub record IsAutoFsm (server_step : ServerState → ServerEvent → Option ServerState) : Type 0 where
  pub listed :
      (s : ServerState) (e : ServerEvent) (t : ServerState)
      → transition s e ≡ some t
      → server_step s e ≡ some t
  pub unlisted :
      (s : ServerState) (e : ServerEvent)
      → is_terminal s ≡ false
      → transition s e ≡ none
      → server_step s e ≡ none
  pub restart :
      (s : ServerState) (e : ServerEvent) → is_terminal s ≡ true → server_step s e ≡ some init

-- The one function that does so.
abbrev pub table_step : ServerState → ServerEvent → Option ServerState
table_step s e = if is_terminal s then some init else transition s e

module _ (server_step : ServerState → ServerEvent → Option ServerState)
    (law : IsAutoFsm server_step) where
  pub IsAutoFsm-table_step : server_step ≡ table_step
  IsAutoFsm-table_step =
      fun_ext (λ s. fun_ext (λ e. at s e (is_terminal s) refl (transition s e) refl))
    where
      at :
          (s : ServerState) (e : ServerEvent) (b : Bool)
          → is_terminal s ≡ b
          → (t : Option ServerState) → transition s e ≡ t
          → server_step s e ≡ table_step s e
      at s e true h t k = rw (law.restart s e h, h)
      at s e false h none k = rw (law.unlisted s e h k, h, k)
      at s e false h (some t) k = rw (law.listed s e t k, h, k)

not_terminal :
    (s : ServerState) (e : ServerEvent) (t : ServerState)
    → transition s e ≡ some t
    → is_terminal s ≡ false
not_terminal s e t h = ground arith

-- The table itself does so too.
pub table_step-IsAutoFsm : IsAutoFsm table_step
table_step-IsAutoFsm = record {
  listed = λ s e t h. rw (not_terminal s e t h, h);
  unlisted = λ s e h k. rw (h, k);
  restart = λ s e h. rw h;
}
