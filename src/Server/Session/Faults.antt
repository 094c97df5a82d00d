-- ===== src/Server/Session/Faults.antt =====
-- The inputs of a session that lead the handlers of smtp_proj/server/src/protocol.c into undefined
-- behaviour.
use pvs_course_project.Base.{
  ◌≡◌, refl, ◌<◌, true, Option, none, some, Bytes, length, Run, ok, fault, null_pointer, underrun,
  wild_pointer, dangling_pointer, arith,
}
use pvs_course_project.Server.Fsm.{
  ServerState, ServerEvent, IsAutoFsm, IsAutoFsm-table_step, table_step, table_step-IsAutoFsm,
  ready, expect_rcpt, expect_data_recv, process_rset, process_rcpt, process_data_recv,
}
use pvs_course_project.Server.Pattern.{
  pt_rset, pt_rcpt, pt_data_recv, Pcre, Patterns, pattern_email,
}
use pvs_course_project.Server.Letter.{Letter, LetterPointer, wild, dangling, live, field_size}
use pvs_course_project.Server.Maildir.{Disk, Host}
use pvs_course_project.Server.Conn.{Conn}
use pvs_course_project.Server.Protocol.{response_250}
use pvs_course_project.Server.Handlers.{process_bind, rset_handler, rcpt_handler, data_recv_handler}
use pvs_course_project.Server.Update.{serve_command}
use pvs_course_project.Server.Update.Order.{is_waiting, is_between, accepts}
use pvs_course_project.Server.Update.Command.{serve_command_accepted}

between-accepts :
    (s : ServerState) → is_between s ≡ true → (is_waiting s ≡ true) × (accepts s pt_rset ≡ true)
between-accepts s h = ground arith

-- What RSET makes of each letter.
abbrev RsetResult : Conn → Disk → Run (Conn × Disk) → LetterPointer → Type 0
RsetResult conn disk result (live letter) =
    result
    ≡ ok (
      record conn {
        old_state = conn.state;
        state = ready;
        letter = dangling;
        send_buf = response_250;
      },
      disk,
    )
RsetResult conn disk result wild = result ≡ fault wild_pointer
RsetResult conn disk result dangling = result ≡ fault dangling_pointer

module _ (server_step : ServerState → ServerEvent → Option ServerState)
    (law : IsAutoFsm server_step) (pcre : Pcre) (patterns : Patterns) (host : Host) (conn : Conn)
    (disk : Disk) (content : Option Bytes) where
  -- RSET between two commands frees the letter and goes back to the beginning of the session, if a
  -- mail has been begun and not yet stored. Where no letter was ever made, or the last one was freed
  -- already, by an earlier RSET or at the end of a mail, it frees a pointer that it must not free.
  pub serve_command_rset :
      is_between conn.state ≡ true
      → RsetResult conn disk
          (serve_command server_step pcre patterns host conn disk pt_rset content)
          conn.letter
  serve_command_rset h = rw (IsAutoFsm-table_step server_step law) (by_letter conn.letter refl)
    where
      rset_lem :
          serve_command table_step pcre patterns host conn disk pt_rset content
          ≡ rset_handler table_step pcre patterns host
              (record conn { old_state = conn.state; state = process_rset })
              disk
              content
      rset_lem =
          rw
            (serve_command_accepted table_step table_step-IsAutoFsm pcre patterns host conn disk
              pt_rset content (between-accepts conn.state h).0 refl
              (between-accepts conn.state h).1)
            (unfold process_bind in refl)

      by_letter :
          (p : LetterPointer)
          → conn.letter ≡ p
          → RsetResult conn disk
              (serve_command table_step pcre patterns host conn disk pt_rset content)
              p
      by_letter (live letter) e = rw rset_lem (unfold rset_handler in rw e)
      by_letter wild e = rw rset_lem (unfold rset_handler in rw e)
      by_letter dangling e = rw rset_lem (unfold rset_handler in rw e)

  -- RCPT whose argument is no address, where a recipient is expected, reads through the null pointer
  -- that pattern_email returns, however short the argument is.
  pub serve_command_no_address :
      (letter : Letter) (to : Bytes)
      → conn.state ≡ expect_rcpt
      → conn.letter ≡ live letter
      → length to < field_size
      → pattern_email pcre patterns to ≡ none
      → serve_command server_step pcre patterns host conn disk pt_rcpt (some to)
        ≡ fault null_pointer
  serve_command_no_address letter to s l short e = rw (IsAutoFsm-table_step server_step law) (
      rw
        (serve_command_accepted table_step table_step-IsAutoFsm pcre patterns host conn disk pt_rcpt
          (some to) (rw s) refl (rw s))
        (unfold process_bind in no_address))
    where
      no_address :
          rcpt_handler table_step pcre patterns host
            (record conn { old_state = conn.state; state = process_rcpt })
            disk
            (some to)
          ≡ fault null_pointer
      no_address = unfold rcpt_handler in ground arith

  -- A text of less than five bytes within a mail makes process_data_recv read in front of the buffer.
  pub serve_command_short_text :
      conn.state ≡ expect_data_recv
      → length conn.recv_buf < 5
      → serve_command server_step pcre patterns host conn disk pt_data_recv content ≡ fault underrun
  serve_command_short_text s short = rw (IsAutoFsm-table_step server_step law) (
      rw
        (serve_command_accepted table_step table_step-IsAutoFsm pcre patterns host conn disk
          pt_data_recv content (rw s) refl (rw s))
        (unfold process_bind in short_text))
    where
      short_text :
          data_recv_handler table_step pcre patterns host
            (record conn { old_state = conn.state; state = process_data_recv })
            disk
            (some conn.recv_buf)
          ≡ fault underrun
      short_text = unfold data_recv_handler in ground arith
