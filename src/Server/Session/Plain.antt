-- ===== src/Server/Session/Plain.antt =====
-- The commands of smtp_proj/server/src/protocol.c that always succeed where they are allowed.
use pvs_course_project.Base.{
  ◌≡◌, refl, Bool, true, false, Option, none, some, [], Bytes, ok, if◌then◌else◌, arith,
}
use pvs_course_project.Server.Fsm.{
  ServerState, ServerEvent, IsAutoFsm, IsAutoFsm-table_step, table_step, table_step-IsAutoFsm,
}
use pvs_course_project.Server.Pattern.{
  PatternType, pt_quit, pt_vrfy, pt_helo, pt_ehlo, pt_mail, pt_data, Pcre, Patterns,
}
use pvs_course_project.Server.Letter.{LetterPointer, live}
use pvs_course_project.Server.Maildir.{Disk, Host}
use pvs_course_project.Server.Conn.{Conn}
use pvs_course_project.Server.Protocol.{
  response_221, response_250, response_250_host, response_354, response_502, is_data_recv,
}
use pvs_course_project.Server.Handlers.{process_bind}
use pvs_course_project.Server.Update.{serve_command}
use pvs_course_project.Server.Update.Order.{is_waiting, is_command, accepts, working}
use pvs_course_project.Server.Update.Command.{serve_command_accepted}
use pvs_course_project.Server.Session.{follow}

-- The commands that need nothing of the letter, of pcre and of the host; MAIL with its argument.
abbrev is_plain : PatternType → Option Bytes → Bool
is_plain pt_mail none = false
is_plain pt_mail (some from) = true
is_plain pt_helo content = true
is_plain pt_ehlo content = true
is_plain pt_data content = true
is_plain pt_vrfy content = true
is_plain pt_quit content = true
is_plain _ content = false

abbrev reply_to : PatternType → Bytes
reply_to pt_helo = response_250_host
reply_to pt_ehlo = response_250_host
reply_to pt_data = response_354
reply_to pt_vrfy = response_502
reply_to pt_quit = response_221
reply_to _ = response_250

-- A new mail has its sender and nothing else.
abbrev letter_after : PatternType → Option Bytes → LetterPointer → LetterPointer
letter_after pt_mail (some from) letter =
    live
      (record { mail_from = from; rcpt_to = []; rcpt_username = []; rcpt_domain = []; body = [] })
letter_after _ content letter = letter

-- The connection behind a plain command.
abbrev pub after_plain : Conn → PatternType → Option Bytes → Conn
after_plain conn type content = record conn {
  old_state = conn.state;
  state = follow conn.state type;
  send_buf = reply_to type;
  letter = letter_after type content conn.letter;
}

plain-is_command :
    (type : PatternType) (content : Option Bytes)
    → is_plain type content ≡ true
    → is_command type ≡ true
plain-is_command type content h = ground arith

plain_bind :
    (pcre : Pcre) (patterns : Patterns) (host : Host) (conn : Conn) (disk : Disk)
    (type : PatternType) (content : Option Bytes)
    → is_plain type content ≡ true
    → process_bind table_step pcre patterns host
        (working type)
        (record conn { old_state = conn.state; state = working type })
        disk
        (if is_data_recv type then some conn.recv_buf else content)
      ≡ ok (after_plain conn type content, disk)
unfolding process_bind
plain_bind pcre patterns host conn disk pt_mail (some from) h = refl
plain_bind pcre patterns host conn disk type content h = ground arith

-- HELO, EHLO, MAIL with an argument, DATA, VRFY and QUIT never fail where the protocol's order allows
-- them: the session goes on to the state that the order gives, VRFY back to where it was, with the
-- reply of the command, a new letter after MAIL and the same letter otherwise, and nothing is
-- written to the disk.
pub serve_command_plain :
    (server_step : ServerState → ServerEvent → Option ServerState)
    → IsAutoFsm server_step
    → (pcre : Pcre) (patterns : Patterns) (host : Host) (conn : Conn) (disk : Disk)
      (type : PatternType) (content : Option Bytes)
    → is_waiting conn.state ≡ true
    → is_plain type content ≡ true
    → accepts conn.state type ≡ true
    → serve_command server_step pcre patterns host conn disk type content
      ≡ ok (after_plain conn type content, disk)
serve_command_plain server_step law pcre patterns host conn disk type content w p a = rw (
  IsAutoFsm-table_step server_step law,
  serve_command_accepted table_step table_step-IsAutoFsm pcre patterns host conn disk type content w
      (plain-is_command type content p) a,
  plain_bind pcre patterns host conn disk type content p,
)
