-- ===== src/Server/Session/Steps.antt =====
-- One call of `protocol_update` (smtp_proj/server/src/protocol.c) on a command that succeeds, and the
-- commands that depend on the letter, on pcre and on the host.
use pvs_course_project.Base.{
  ◌≡◌, refl, ◌≤◌, ◌<◌, ◌-◌, ◌++◌, true, false, not, ◌&&◌, ◌||◌, [], ◌∷◌, Option, none, some, Bytes,
  length, drop, str_eq, Run, ok, if◌then◌else◌, arith, ◌>>=◌, length-append,
}
use pvs_course_project.Base.Int.{ltb_ℤ}
use pvs_course_project.Server.Fsm.{
  ServerState, ServerEvent, table_step, table_step-IsAutoFsm, process_rcpt, process_data_recv,
  process_data_end, expect_rcpt, expect_data, expect_data_recv, expect_mail,
}
use pvs_course_project.Server.Pattern.{
  PatternType, pt_rcpt, pt_data_recv, pt_data_end, Pcre, Patterns, pattern_email,
}
use pvs_course_project.Server.Stopwatch.{stopwatch_watch}
use pvs_course_project.Server.Letter.{Letter, live, dangling, field_size, body_size}
use pvs_course_project.Server.Maildir.{
  Disk, Host, usr_local, maildir_ensure_user, maildir_get_fname,
}
use pvs_course_project.Server.Conn.{Conn}
use pvs_course_project.Server.Protocol.{
  classify, is_end, is_data_recv, expects_data, is_init, is_empty, conn_timeout, response_250,
  response_250_saved, response_500,
}
use pvs_course_project.Server.Handlers.{
  process_bind, rcpt_handler, data_recv_handler, data_end_handler, mail_text, ending, crlf,
}
use pvs_course_project.Server.Update.{
  Tick, serve_command, serve_text, receive, greet, expire, update_conn,
}
use pvs_course_project.Server.Update.Command.{serve_command_accepted}

-- The call ends before the connection's time is over.
abbrev pub IsTimely : Tick → Type 0
IsTimely tick = ltb_ℤ conn_timeout (stopwatch_watch tick.started tick.watched) ≡ false

module _ (server_step : ServerState → ServerEvent → Option ServerState) (pcre : Pcre)
    (patterns : Patterns) where
  receive_served :
      (tick : Tick) (conn : Conn) (disk : Disk) (type : PatternType) (content : Option Bytes)
      (next : Conn) (written : Disk)
      → is_empty conn.recv_buf ≡ false
      → classify pcre patterns conn.recv_buf ≡ (type, content)
      → (is_end type || (is_data_recv type && not (expects_data conn.state))) ≡ false
      → serve_command server_step pcre patterns tick.host conn disk type content
        ≡ ok (next, written)
      → receive server_step pcre patterns tick conn disk
        ≡ ok (record next { recv_buf = []; watch = tick.started }, written)
  receive_served tick conn disk type content next written full known taken served =
      rw (receive_lem, full, known, serve_text_lem, taken, served)
    where
      receive_lem : receive server_step pcre patterns tick conn disk ≡ (
          if is_empty conn.recv_buf
          then ok (conn, disk)
          else serve_text server_step pcre patterns tick.host conn disk
              (classify pcre patterns conn.recv_buf)
            >>= λ r. ok (record (r.0) { recv_buf = []; watch = tick.started }, r.1))
      receive_lem = unfold receive in refl

      serve_text_lem : serve_text server_step pcre patterns tick.host conn disk (type, content) ≡ (
          if is_end type || (is_data_recv type && not (expects_data conn.state))
          then ok (record conn { send_buf = response_500 }, disk)
          else serve_command server_step pcre patterns tick.host conn disk type content)
      serve_text_lem = unfold serve_text in refl

  -- A text whose command succeeds is answered, the buffer is emptied and the watch started anew.
  pub update_conn_served :
      (tick : Tick) (conn : Conn) (disk : Disk) (type : PatternType) (content : Option Bytes)
      (next : Conn) (written : Disk)
      → is_empty conn.recv_buf ≡ false
      → classify pcre patterns conn.recv_buf ≡ (type, content)
      → (is_end type || (is_data_recv type && not (expects_data conn.state))) ≡ false
      → serve_command server_step pcre patterns tick.host conn disk type content
        ≡ ok (next, written)
      → is_init next.state ≡ false
      → IsTimely tick
      → update_conn server_step pcre patterns tick conn disk
        ≡ ok (record next { recv_buf = []; watch = tick.started }, written)
  update_conn_served tick conn disk type content next written full known taken served begun timely =
      rw
        (
          update_lem,
          receive_served tick conn disk type content next written full known taken served,
        )
        (rest_lem (record next { recv_buf = []; watch = tick.started }) begun timely)
    where
      update_lem : update_conn server_step pcre patterns tick conn disk ≡ (
          receive server_step pcre patterns tick conn disk >>= λ r.
          greet server_step r.0 >>= λ greeted. ok (expire tick greeted, r.1))
      update_lem = unfold update_conn in refl

      rest_lem :
          (c : Conn)
          → is_init c.state ≡ false
          → ltb_ℤ conn_timeout (stopwatch_watch c.watch tick.watched) ≡ false
          → let out : Run (Conn × Disk) =
              greet server_step c >>= λ greeted. ok (expire tick greeted, written) in
            out ≡ ok (c, written)
      rest_lem c h k = unfold greet expire in rw (h, k)

module _ (pcre : Pcre) (patterns : Patterns) (host : Host) (conn : Conn) (disk : Disk)
    (letter : Letter) where
  -- RCPT with an address whose parts fit their blocks fills in the letter.
  rcpt_lem :
      (to user domain : Bytes)
      → conn.state ≡ process_rcpt
      → conn.letter ≡ live letter
      → pattern_email pcre patterns to ≡ some (some user, some domain)
      → length to < field_size
      → length user < field_size
      → length domain < field_size
      → rcpt_handler table_step pcre patterns host conn disk (some to)
        ≡ ok (
          record conn {
            state = expect_data;
            send_buf = response_250;
            letter =
                live (record letter { rcpt_to = to; rcpt_username = user; rcpt_domain = domain });
          },
          disk,
        )
  unfolding rcpt_handler
  rcpt_lem to user domain s l e a b c = ground arith

  -- A text that does not end the mail is added to the body, and there is no reply.
  pub data_recv_lem :
      (text : Bytes)
      → conn.state ≡ process_data_recv
      → conn.letter ≡ live letter
      → 5 ≤ length text
      → str_eq (drop (length text - 5) text) ending ≡ false
      → length ((letter.body ++ text) ++ crlf) < body_size
      → data_recv_handler table_step pcre patterns host conn disk (some text)
        ≡ ok (
          record conn {
            state = expect_data_recv;
            letter = live (record letter { body = (letter.body ++ text) ++ crlf });
          },
          disk,
        )
  data_recv_lem text s l long plain fits =
      unfold data_recv_handler in
      ground (arith, length-append letter.body text, length-append (letter.body ++ text) crlf)

  -- The end of the mail alone on a line writes the letter behind the name that the maildir gives.
  data_end_lem :
      (filename : Bytes)
      → conn.state ≡ process_data_end
      → conn.letter ≡ live letter
      → maildir_get_fname host letter.rcpt_username letter.rcpt_domain ≡ ok filename
      → host.fopen filename ≡ true
      → data_end_handler table_step pcre patterns host conn disk none
        ≡ ok (
          record conn { state = expect_mail; send_buf = response_250_saved; letter = dangling },
          record (maildir_ensure_user host disk letter.rcpt_username usr_local) {
            files =
                (filename, mail_text letter)
                ∷ (maildir_ensure_user host disk letter.rcpt_username usr_local).files;
          },
        )
  data_end_lem filename s l e o = unfold data_end_handler in rw (l, e, o, s)

-- The same through the state machine, in the states in which the protocol's order allows them.
module _ (pcre : Pcre) (patterns : Patterns) (host : Host) (conn : Conn) (disk : Disk)
    (letter : Letter) where
  pub serve_rcpt :
      (to user domain : Bytes)
      → conn.state ≡ expect_rcpt
      → conn.letter ≡ live letter
      → pattern_email pcre patterns to ≡ some (some user, some domain)
      → length to < field_size
      → length user < field_size
      → length domain < field_size
      → serve_command table_step pcre patterns host conn disk pt_rcpt (some to)
        ≡ ok (
          record conn {
            old_state = conn.state;
            state = expect_data;
            send_buf = response_250;
            letter =
                live (record letter { rcpt_to = to; rcpt_username = user; rcpt_domain = domain });
          },
          disk,
        )
  serve_rcpt to user domain s l e a b c =
      rw
        (serve_command_accepted table_step table_step-IsAutoFsm pcre patterns host conn disk pt_rcpt
          (some to) (rw s) refl (rw s))
        (unfold process_bind in
          rcpt_lem pcre patterns host (record conn { old_state = conn.state; state = process_rcpt })
            disk letter to user domain refl l e a b c)

  pub serve_data_recv :
      (content : Option Bytes)
      → conn.state ≡ expect_data_recv
      → conn.letter ≡ live letter
      → 5 ≤ length conn.recv_buf
      → str_eq (drop (length conn.recv_buf - 5) conn.recv_buf) ending ≡ false
      → length ((letter.body ++ conn.recv_buf) ++ crlf) < body_size
      → serve_command table_step pcre patterns host conn disk pt_data_recv content
        ≡ ok (
          record conn {
            old_state = conn.state;
            state = expect_data_recv;
            letter = live (record letter { body = (letter.body ++ conn.recv_buf) ++ crlf });
          },
          disk,
        )
  serve_data_recv content s l long plain fits =
      rw
        (serve_command_accepted table_step table_step-IsAutoFsm pcre patterns host conn disk
          pt_data_recv content (rw s) refl (rw s))
        (unfold process_bind in
          data_recv_lem pcre patterns host
            (record conn { old_state = conn.state; state = process_data_recv }) disk letter
            conn.recv_buf refl l long plain fits)

  pub serve_data_end :
      (filename : Bytes)
      → conn.state ≡ expect_data_recv
      → conn.letter ≡ live letter
      → maildir_get_fname host letter.rcpt_username letter.rcpt_domain ≡ ok filename
      → host.fopen filename ≡ true
      → serve_command table_step pcre patterns host conn disk pt_data_end none
        ≡ ok (
          record conn {
            old_state = conn.state;
            state = expect_mail;
            send_buf = response_250_saved;
            letter = dangling;
          },
          record (maildir_ensure_user host disk letter.rcpt_username usr_local) {
            files =
                (filename, mail_text letter)
                ∷ (maildir_ensure_user host disk letter.rcpt_username usr_local).files;
          },
        )
  serve_data_end filename s l e o =
      rw
        (serve_command_accepted table_step table_step-IsAutoFsm pcre patterns host conn disk
          pt_data_end none (rw s) refl (rw s))
        (unfold process_bind in
          data_end_lem pcre patterns host
            (record conn { old_state = conn.state; state = process_data_end }) disk letter filename
            refl l e o)
