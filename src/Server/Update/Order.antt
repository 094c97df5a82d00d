-- ===== src/Server/Update/Order.antt =====
-- Which commands the server takes in which state (smtp_proj/server/proto/smtp.tpl with
-- `protocol_update` of smtp_proj/server/src/protocol.c).
use pvs_course_project.Base.{◌≡◌, Bool, true, false, none, some, arith}
use pvs_course_project.Server.Fsm.{
  ServerState, init, disconnected, ready, process_helo, process_ehlo, process_quit, process_vrfy,
  process_rset, expect_mail, process_mail, expect_rcpt, process_rcpt, expect_data, process_data,
  expect_data_recv, process_data_recv, process_data_end, invalid, table_step,
}
use pvs_course_project.Server.Pattern.{
  PatternType, pt_start, pt_email, pt_end, pt_quit, pt_rset, pt_vrfy, pt_helo, pt_ehlo, pt_mail,
  pt_rcpt, pt_data, pt_data_end, pt_data_recv,
}
use pvs_course_project.Server.Protocol.{event_map}

-- The states in which a connection waits between two calls of protocol_update.
abbrev pub is_waiting : ServerState → Bool
is_waiting init = true
is_waiting ready = true
is_waiting expect_mail = true
is_waiting expect_rcpt = true
is_waiting expect_data = true
is_waiting expect_data_recv = true
is_waiting disconnected = true
is_waiting _ = false

-- The states between two commands of a session.
abbrev pub is_between : ServerState → Bool
is_between ready = true
is_between expect_mail = true
is_between expect_rcpt = true
is_between expect_data = true
is_between _ = false

-- The order that the protocol asks for: a command and the state in which it may come.
abbrev pub accepts : ServerState → PatternType → Bool
accepts s pt_quit = is_between s
accepts s pt_rset = is_between s
accepts s pt_vrfy = is_between s
accepts ready pt_helo = true
accepts ready pt_ehlo = true
accepts expect_mail pt_mail = true
accepts expect_rcpt pt_rcpt = true
accepts expect_data pt_data = true
accepts expect_data_recv pt_data_end = true
accepts expect_data_recv pt_data_recv = true
accepts _ _ = false

-- The state in which a command is carried out.
abbrev pub working : PatternType → ServerState
working pt_quit = process_quit
working pt_rset = process_rset
working pt_vrfy = process_vrfy
working pt_helo = process_helo
working pt_ehlo = process_ehlo
working pt_mail = process_mail
working pt_rcpt = process_rcpt
working pt_data = process_data
working pt_data_end = process_data_end
working pt_data_recv = process_data_recv
working _ = invalid

pub table_step_accepted :
    (s : ServerState) (t : PatternType)
    → is_waiting s ≡ true
    → accepts s t ≡ true
    → table_step s (event_map t) ≡ some (working t)
table_step_accepted s t w h = ground arith

-- The types that `protocol_init` gives an event.
abbrev pub is_command : PatternType → Bool
is_command pt_start = false
is_command pt_email = false
is_command pt_end = false
is_command _ = true

pub table_step_refused :
    (s : ServerState) (t : PatternType)
    → is_waiting s ≡ true
    → is_command t ≡ true
    → accepts s t ≡ false
    → table_step s (event_map t) ≡ none
table_step_refused s t w c h = ground arith
