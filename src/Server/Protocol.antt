-- ===== src/Server/Protocol.antt =====
-- smtp_proj/server/src/protocol.c and include/protocol.h. A handler takes the connection and the file
-- system and gives them back; its own return value is read by no caller and is left out, and so are
-- the log messages. `none` for `data` and `content` is the null pointer.
use pvs_course_project.Base.{
  zero, ◌*◌, Bool, true, false, List, [], ◌∷◌, Option, none, some, Bytes, codes, Run, ok, fault,
  exited, null_pointer, wild_pointer, if◌then◌else◌,
}
use pvs_course_project.Base.Int.{ℤ, pos}
use pvs_course_project.Server.Fsm.{
  ServerState, init, expect_data_recv, ServerEvent, connect, quit, rset, vrfy, helo, ehlo, mail,
  rcpt, data_cmd, data_recv, data_end,
}
use pvs_course_project.Server.Pattern.{
  PatternType, pt_start, pt_quit, pt_rset, pt_vrfy, pt_helo, pt_ehlo, pt_mail, pt_rcpt, pt_data,
  pt_data_end, pt_data_recv, pt_email, pt_end, Pcre, Patterns, pattern_compute,
}
use pvs_course_project.Server.Maildir.{Disk}
use pvs_course_project.Server.Conn.{Conn}

abbrev pub conn_timeout : ℤ
conn_timeout = pos (30 * 1000)

-- The replies.
abbrev pub response_220 : Bytes
response_220 = codes "220 example.com\r\n"

abbrev pub response_221 : Bytes
response_221 = codes "221 Closing connection\r\n"

abbrev pub response_250 : Bytes
response_250 = codes "250 Ok\r\n"

abbrev pub response_250_host : Bytes
response_250_host = codes "250 example.com\r\n"

abbrev pub response_250_saved : Bytes
response_250_saved = codes "250 Mail is saved on disk and will be queued for forwarding\r\n"

abbrev pub response_354 : Bytes
response_354 = codes "354 Start mail input; end with <CRLF>.<CRLF>\r\n"

abbrev pub response_421_timeout : Bytes
response_421_timeout = codes "421 Server Error: timeout exceeded\r\n"

abbrev pub response_451 : Bytes
response_451 = codes "451 Requested action aborted: local error in processing\r\n"

abbrev pub response_500 : Bytes
response_500 = codes "500 Invalid command\r\n"

abbrev pub response_501 : Bytes
response_501 = codes "501 Syntax error in parameters or arguments\r\n"

abbrev pub response_502 : Bytes
response_502 = codes "502 Command not implemented\r\n"

abbrev pub response_554 : Bytes
response_554 = codes "554 Transaction failed\r\n"

-- `event_map`; the entries that `protocol_init` leaves out are 0, the first event.
abbrev pub event_map : PatternType → ServerEvent
event_map pt_helo = helo
event_map pt_ehlo = ehlo
event_map pt_mail = mail
event_map pt_data = data_cmd
event_map pt_rcpt = rcpt
event_map pt_data_end = data_end
event_map pt_data_recv = data_recv
event_map pt_vrfy = vrfy
event_map pt_rset = rset
event_map pt_quit = quit
event_map _ = connect

-- `strcpy(conn->send_buf, …)` of a reply.
abbrev pub say : Bytes → Conn → Conn
say text conn = record conn { send_buf = text }

abbrev Handled : Type 0
Handled = Run (Conn × Disk)

-- The steps of `while (type < PT_END)`, in the order of the enumeration.
abbrev all_types : List PatternType
all_types =
    pt_start ∷ pt_quit ∷ pt_rset ∷ pt_vrfy ∷ pt_helo ∷ pt_ehlo ∷ pt_mail ∷ pt_rcpt ∷ pt_data
    ∷ pt_data_end ∷ pt_data_recv ∷ pt_email ∷ []

abbrev pub is_end : PatternType → Bool
is_end pt_end = true
is_end _ = false

abbrev pub is_data_recv : PatternType → Bool
is_data_recv pt_data_recv = true
is_data_recv _ = false

abbrev pub expects_data : ServerState → Bool
expects_data expect_data_recv = true
expects_data _ = false

abbrev pub is_init : ServerState → Bool
is_init init = true
is_init _ = false

abbrev is_zero : ℤ → Bool
is_zero (pos zero) = true
is_zero _ = false

abbrev pub is_empty : Bytes → Bool
is_empty [] = true
is_empty (_ ∷ _) = false

module _ (pcre : Pcre) (patterns : Patterns) where
  find_type : Bytes → Option Bytes → List PatternType → PatternType × Option Bytes
  unfolding pattern_compute
  find_type buf content [] = (pt_end, content)
  find_type buf content (type ∷ types) =
      let (code, found) = pattern_compute pcre patterns type buf content in
      let rest = find_type buf found types in if is_zero code then (type, found) else rest

  -- The type of the text received, and `content`.
  unfoldable pub classify : Bytes → PatternType × Option Bytes
  unfolding find_type
  classify buf = find_type buf none all_types

-- `email[0]` and `email[1]` for the result of `pattern_email`.
abbrev pub deref_pair : Option (Option Bytes × Option Bytes) → Run (Bytes × Bytes)
deref_pair none = fault null_pointer
deref_pair (some (some a, some b)) = ok (a, b)
deref_pair (some _) = fault wild_pointer

module _ (server_step : ServerState → ServerEvent → Option ServerState) where
  -- `conn->state = server_step(conn->state, event, NULL)`; a wrong event is `exit(EXIT_FAILURE)`.
  unfoldable pub advance : Conn → ServerEvent → Run Conn
  advance conn event = elim (server_step conn.state event) [
    | none ↦ exited 1
    | some next ↦ ok (record conn { state = next })
  ]
