-- ===== src/Server/Update/Command.antt =====
-- How `protocol_update` (smtp_proj/server/src/protocol.c) passes a command on: the two ways that the
-- state machine gives, for any server_step that follows it.
use pvs_course_project.Base.{
  Run, fault, overrun, arith, ◌≡◌, refl, ◌∙◌, true, false, Option, none, some, Bytes, ok, exited,
  ◌>>=◌, if◌then◌else◌,
}
use pvs_course_project.Server.Fsm.{ServerState, ServerEvent, IsAutoFsm, IsAutoFsm-table_step}
use pvs_course_project.Server.Pattern.{
  PatternType, pt_quit, pt_rset, pt_vrfy, pt_helo, pt_ehlo, pt_mail, pt_rcpt, pt_data, pt_data_end,
  pt_data_recv, Pcre, Patterns,
}
use pvs_course_project.Server.Maildir.{Disk, Host}
use pvs_course_project.Server.Conn.{Conn}
use pvs_course_project.Server.Protocol.{advance, event_map, is_data_recv}
use pvs_course_project.Server.Handlers.{
  helo_handler, ehlo_handler, mail_handler, rcpt_handler, data_handler, data_end_handler,
  data_recv_handler, vrfy_handler, rset_handler, quit_handler, process_bind,
}
use pvs_course_project.Server.Update.{serve_command}
use pvs_course_project.Server.Update.Order.{
  is_waiting, is_command, accepts, working, table_step_accepted, table_step_refused,
}

module _ (server_step : ServerState → ServerEvent → Option ServerState) where
  pub advance_next :
      (conn : Conn) (event : ServerEvent) (next : ServerState)
      → server_step conn.state event ≡ some next
      → advance server_step conn event ≡ ok (record conn { state = next })
  unfolding advance
  advance_next conn event next h = rw (h, advance)

  pub advance_exit :
      (conn : Conn) (event : ServerEvent)
      → server_step conn.state event ≡ none
      → advance server_step conn event ≡ exited 1
  unfolding advance
  advance_exit conn event h = rw (h, advance)

  pub serve_command_lem :
      (pcre : Pcre) (patterns : Patterns) (host : Host) (conn : Conn) (disk : Disk)
      (type : PatternType) (content : Option Bytes)
      → serve_command server_step pcre patterns host conn disk type content ≡ (
          advance server_step (record conn { old_state = conn.state }) (event_map type) >>= λ next.
          process_bind server_step pcre patterns host next.state next disk
            (if is_data_recv type then some conn.recv_buf else content))
  unfolding serve_command
  serve_command_lem pcre patterns host conn disk type content = refl

module _ (server_step : ServerState → ServerEvent → Option ServerState)
    (law : IsAutoFsm server_step) (pcre : Pcre) (patterns : Patterns) (host : Host) (conn : Conn)
    (disk : Disk) (type : PatternType) (content : Option Bytes)
    (waits : is_waiting conn.state ≡ true) (command : is_command type ≡ true) where
  -- In a waiting state, a command that the protocol's order does not allow there ends the process of
  -- the worker with code 1: no reply is sent, and its other connections are lost.
  pub serve_command_refused :
      accepts conn.state type ≡ false
      → serve_command server_step pcre patterns host conn disk type content ≡ exited 1
  serve_command_refused h = rw (
    serve_command_lem server_step pcre patterns host conn disk type content,
    advance_exit server_step (record conn { old_state = conn.state }) (event_map type)
        (rw (IsAutoFsm-table_step server_step law)
          (table_step_refused conn.state type waits command h)),
  )

  -- A command that is allowed goes to `process_bind`, in the state of its own.
  pub serve_command_accepted :
      accepts conn.state type ≡ true
      → serve_command server_step pcre patterns host conn disk type content
        ≡ process_bind server_step pcre patterns host
            (working type)
            (record conn { old_state = conn.state; state = working type })
            disk
            (if is_data_recv type then some conn.recv_buf else content)
  serve_command_accepted h = rw (
    serve_command_lem server_step pcre patterns host conn disk type content,
    advance_next server_step (record conn { old_state = conn.state }) (event_map type)
        (working type)
        (rw (IsAutoFsm-table_step server_step law) (table_step_accepted conn.state type waits h)),
  )

  -- What each command asks for: its handler, with the whole text of a line of a mail, and with what
  -- pcre reads out of the text of any other command.
  abbrev carry_out : PatternType → Conn → Run (Conn × Disk)
  carry_out pt_quit c = quit_handler server_step pcre patterns host c disk content
  carry_out pt_rset c = rset_handler server_step pcre patterns host c disk content
  carry_out pt_vrfy c = vrfy_handler server_step pcre patterns host c disk content
  carry_out pt_helo c = helo_handler server_step pcre patterns host c disk content
  carry_out pt_ehlo c = ehlo_handler server_step pcre patterns host c disk content
  carry_out pt_mail c = mail_handler server_step pcre patterns host c disk content
  carry_out pt_rcpt c = rcpt_handler server_step pcre patterns host c disk content
  carry_out pt_data c = data_handler server_step pcre patterns host c disk content
  carry_out pt_data_end c = data_end_handler server_step pcre patterns host c disk content
  carry_out pt_data_recv c =
      data_recv_handler server_step pcre patterns host c disk (some conn.recv_buf)
  carry_out _ c = fault overrun

  bound_lem :
      (t : PatternType) (c : Conn) (s : ServerState)
      → accepts s t ≡ true
      → process_bind server_step pcre patterns host
          (working t)
          c
          disk
          (if is_data_recv t then some conn.recv_buf else content)
        ≡ carry_out t c
  unfolding process_bind
  bound_lem t c s h = ground arith

  -- In a waiting state, a command that the protocol's order allows is carried out by its own handler,
  -- in the state of its own and with the state before in `old_state`: HELO by process_helo, and so
  -- each of the ten commands.
  pub serve_command_handled :
      accepts conn.state type ≡ true
      → serve_command server_step pcre patterns host conn disk type content
        ≡ carry_out type (record conn { old_state = conn.state; state = working type })
  serve_command_handled h =
      serve_command_accepted h
      ∙ bound_lem type (record conn { old_state = conn.state; state = working type }) conn.state h
