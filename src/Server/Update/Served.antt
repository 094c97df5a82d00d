-- ===== src/Server/Update/Served.antt =====
-- A command that `protocol_update` (smtp_proj/server/src/protocol.c) serves keeps the invariant of its
-- connection.
use pvs_course_project.Base.{
  ◌≡◌, refl, true, Option, none, some, arith, Bytes, ◌⊎◌, ◌||◌, ◌&&◌, not, ok, if◌then◌else◌,
  Bool-cases, inl, inr,
}
use pvs_course_project.Server.Fsm.{
  ServerState, init, table_step, table_step-IsAutoFsm, connect, connected,
}
use pvs_course_project.Server.Pattern.{
  PatternType, pt_start, pt_quit, pt_rset, pt_vrfy, pt_helo, pt_ehlo, pt_mail, pt_rcpt, pt_data,
  pt_data_end, pt_data_recv, pt_email, pt_end, Pcre, Patterns,
}
use pvs_course_project.Server.Maildir.{Disk, Host}
use pvs_course_project.Server.Conn.{Conn}
use pvs_course_project.Server.Handlers.{process_bind}
use pvs_course_project.Server.Update.{serve_command, serve_text}
use pvs_course_project.Server.Protocol.{
  event_map, is_data_recv, expects_data, is_end, say, response_500,
}
use pvs_course_project.Server.Update.Command.{
  advance_next, advance_exit, serve_command_lem, serve_command_refused, serve_command_accepted,
}
use pvs_course_project.Server.Update.Order.{is_waiting, accepts, working, is_command}
use pvs_course_project.Server.Update.Valid.{is_live, IsValid, Keeps}
use pvs_course_project.Server.Update.Carried.{
  helo-Keeps, rset-Keeps, quit-Keeps, mail-Keeps, ehlo-Keeps, data-Keeps, rcpt-Keeps, vrfy-Keeps,
  data_end-Keeps, data_recv-Keeps,
}

-- A command that may come where a mail has been begun finds the letter live.
rcpt-live :
    (conn : Conn) → IsValid conn → accepts conn.state pt_rcpt ≡ true → is_live conn.letter ≡ true
rcpt-live conn v a = ground arith

data-live :
    (conn : Conn) → IsValid conn → accepts conn.state pt_data ≡ true → is_live conn.letter ≡ true
data-live conn v a = ground arith

module _ (pcre : Pcre) (patterns : Patterns) (host : Host) (conn : Conn) (disk : Disk)
    (given : Option Bytes) where
  abbrev in_work : PatternType → Conn
  in_work type = record conn { old_state = conn.state; state = working type }

  -- The handler of a command that is allowed keeps the invariant.
  bind-Keeps :
      (type : PatternType)
      → IsValid conn
      → accepts conn.state type ≡ true
      → Keeps (process_bind table_step pcre patterns host (working type) (in_work type) disk given)
  bind-Keeps pt_helo v a =
      unfold process_bind in
      helo-Keeps pcre patterns host (in_work pt_helo) disk given refl v.letter_fits
  bind-Keeps pt_ehlo v a =
      unfold process_bind in
      ehlo-Keeps pcre patterns host (in_work pt_ehlo) disk given refl v.letter_fits
  bind-Keeps pt_mail v a =
      unfold process_bind in
      mail-Keeps pcre patterns host (in_work pt_mail) disk given refl v.letter_fits
  bind-Keeps pt_rcpt v a =
      unfold process_bind in
      rcpt-Keeps pcre patterns host (in_work pt_rcpt) disk given refl (rcpt-live conn v a)
        v.letter_fits v.reply_fits
  bind-Keeps pt_data v a =
      unfold process_bind in
      data-Keeps pcre patterns host (in_work pt_data) disk given refl (data-live conn v a)
        v.letter_fits
  bind-Keeps pt_data_end v a =
      unfold process_bind in
      data_end-Keeps pcre patterns host (in_work pt_data_end) disk given refl v.letter_fits
  bind-Keeps pt_data_recv v a =
      unfold process_bind in
      data_recv-Keeps pcre patterns host (in_work pt_data_recv) disk given refl v.reply_fits
        v.letter_fits
  bind-Keeps pt_vrfy v a =
      unfold process_bind in
      vrfy-Keeps pcre patterns host (in_work pt_vrfy) disk given v.waits v.letter_live v.letter_fits
  bind-Keeps pt_rset v a =
      unfold process_bind in rset-Keeps pcre patterns host (in_work pt_rset) disk given refl
  bind-Keeps pt_quit v a =
      unfold process_bind in
      quit-Keeps pcre patterns host (in_work pt_quit) disk given refl v.letter_fits
  bind-Keeps pt_start v a = cc
  bind-Keeps pt_email v a = cc
  bind-Keeps pt_end v a = cc

-- The types without an event of their own raise the first event, which leads to no handler.
connect_cases :
    (s : ServerState)
    → is_waiting s ≡ true
    → (table_step s connect ≡ none) ⊎ (table_step s connect ≡ some connected)
connect_cases init w = inr refl
connect_cases _ w = ground arith

module _ (pcre : Pcre) (patterns : Patterns) (host : Host) (conn : Conn) (disk : Disk)
    (content : Option Bytes) (v : IsValid conn) where
  other-Keeps :
      (type : PatternType)
      → event_map type ≡ connect
      → Keeps (serve_command table_step pcre patterns host conn disk type content)
  other-Keeps type e = elim (connect_cases conn.state v.waits) [
    | inl h ↦
        rw
          (
            serve_command_lem table_step pcre patterns host conn disk type content,
            advance_exit table_step (record conn { old_state = conn.state }) (event_map type)
                (rw e h),
          )
          tt
    | inr h ↦
        rw
          (
            serve_command_lem table_step pcre patterns host conn disk type content,
            advance_next table_step (record conn { old_state = conn.state }) (event_map type)
                connected (rw e h),
          )
          (unfold process_bind in tt)
  ]

  command-Keeps :
      (type : PatternType)
      → is_command type ≡ true
      → Keeps (serve_command table_step pcre patterns host conn disk type content)
  command-Keeps type c = elim (Bool-cases (accepts conn.state type)) [
    | inl h ↦
        rw
          (serve_command_accepted table_step table_step-IsAutoFsm pcre patterns host conn disk type
            content v.waits c h)
          (bind-Keeps pcre patterns host conn disk
            (if is_data_recv type then some conn.recv_buf else content) type v h)
    | inr h ↦
        rw
          (serve_command_refused table_step table_step-IsAutoFsm pcre patterns host conn disk type
            content v.waits c h)
          tt
  ]

  serve_command-Keeps :
      (type : PatternType)
      → Keeps (serve_command table_step pcre patterns host conn disk type content)
  serve_command-Keeps pt_start = other-Keeps pt_start refl
  serve_command-Keeps pt_email = other-Keeps pt_email refl
  serve_command-Keeps pt_end = other-Keeps pt_end refl
  serve_command-Keeps pt_quit = command-Keeps pt_quit refl
  serve_command-Keeps pt_rset = command-Keeps pt_rset refl
  serve_command-Keeps pt_vrfy = command-Keeps pt_vrfy refl
  serve_command-Keeps pt_helo = command-Keeps pt_helo refl
  serve_command-Keeps pt_ehlo = command-Keeps pt_ehlo refl
  serve_command-Keeps pt_mail = command-Keeps pt_mail refl
  serve_command-Keeps pt_rcpt = command-Keeps pt_rcpt refl
  serve_command-Keeps pt_data = command-Keeps pt_data refl
  serve_command-Keeps pt_data_end = command-Keeps pt_data_end refl
  serve_command-Keeps pt_data_recv = command-Keeps pt_data_recv refl

  pub serve_text-Keeps :
      (type : PatternType)
      → Keeps (serve_text table_step pcre patterns host conn disk (type, content))
  serve_text-Keeps type = ground (arith, serve_text_lem, serve_command-Keeps type)
    where
      serve_text_lem : serve_text table_step pcre patterns host conn disk (type, content) ≡ (
          if is_end type || (is_data_recv type && not (expects_data conn.state))
          then ok (say response_500 conn, disk)
          else serve_command table_step pcre patterns host conn disk type content)
      serve_text_lem = unfold serve_text in refl
