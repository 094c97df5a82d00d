-- ===== src/Server/Update/Carried.antt =====
-- Each handler of smtp_proj/server/src/protocol.c keeps the invariant of the connections.
use pvs_course_project.Base.{
  ◌<◌, ◌≡◌, refl, true, [], ◌∷◌, Option, none, some, arith, Bytes, length, drop, str_eq, leb, ◌-◌,
  require, underrun, Returns, ◌>>◌, if◌then◌else◌,
}
use pvs_course_project.Server.Fsm.{
  process_helo, process_ehlo, process_quit, process_rset, process_mail, process_rcpt, process_data,
  process_data_recv, process_data_end, table_step,
}
use pvs_course_project.Server.Pattern.{Pcre, Patterns}
use pvs_course_project.Server.Letter.{LetterPointer, wild, dangling, live, Letter}
use pvs_course_project.Server.Maildir.{Disk, Host}
use pvs_course_project.Server.Conn.{Conn, send_buf_size}
use pvs_course_project.Server.Handlers.{
  add_line, add_rest, helo_handler, ehlo_handler, mail_handler, rcpt_handler, data_handler,
  data_end_handler, data_recv_handler, rset_handler, vrfy_handler, quit_handler, ending, store_mail,
  end_mail, add_to_mail,
}
use pvs_course_project.Server.Update.Order.{is_waiting}
use pvs_course_project.Server.Update.Valid.{is_live, holds_mail, FitsBlocks, Keeps}

module _ (pcre : Pcre) (patterns : Patterns) (host : Host) (conn : Conn) (disk : Disk)
    (given : Option Bytes) where
  pub helo-Keeps :
      conn.state ≡ process_helo
      → FitsBlocks conn.letter
      → Keeps (helo_handler table_step pcre patterns host conn disk given)
  unfolding helo_handler
  helo-Keeps s f = ground arith

  pub rset-Keeps :
      conn.state ≡ process_rset → Keeps (rset_handler table_step pcre patterns host conn disk given)
  unfolding rset_handler
  rset-Keeps s = ground arith

  pub quit-Keeps :
      conn.state ≡ process_quit
      → FitsBlocks conn.letter
      → Keeps (quit_handler table_step pcre patterns host conn disk given)
  unfolding quit_handler
  quit-Keeps s f = ground arith

  pub mail-Keeps :
      conn.state ≡ process_mail
      → FitsBlocks conn.letter
      → Keeps (mail_handler table_step pcre patterns host conn disk given)
  unfolding mail_handler
  mail-Keeps s f = ground arith

  pub ehlo-Keeps :
      conn.state ≡ process_ehlo
      → FitsBlocks conn.letter
      → Keeps (ehlo_handler table_step pcre patterns host conn disk given)
  unfolding ehlo_handler
  ehlo-Keeps s f = ground arith

  pub data-Keeps :
      conn.state ≡ process_data
      → is_live conn.letter ≡ true
      → FitsBlocks conn.letter
      → Keeps (data_handler table_step pcre patterns host conn disk given)
  unfolding data_handler
  data-Keeps s l f = ground arith

  pub rcpt-Keeps :
      conn.state ≡ process_rcpt
      → is_live conn.letter ≡ true
      → FitsBlocks conn.letter
      → length conn.send_buf < send_buf_size
      → Keeps (rcpt_handler table_step pcre patterns host conn disk given)
  unfolding rcpt_handler
  rcpt-Keeps s l f b = ground arith

  pub vrfy-Keeps :
      is_waiting conn.old_state ≡ true
      → (holds_mail conn.old_state ≡ true → is_live conn.letter ≡ true)
      → FitsBlocks conn.letter
      → Keeps (vrfy_handler table_step pcre patterns host conn disk given)
  unfolding vrfy_handler
  vrfy-Keeps w l f = ground arith

add_line-Fits :
    (letter : Letter) (text : Bytes)
    → FitsBlocks (live letter)
    → Returns (λ l. FitsBlocks (live l)) (add_line letter text)
unfolding add_line
add_line-Fits letter text f = ground arith

add_rest-Fits :
    (pointer : LetterPointer) (given : Option Bytes)
    → FitsBlocks pointer
    → Returns (λ p. FitsBlocks p × (is_live pointer ≡ is_live p)) (add_rest pointer given)
add_rest-Fits pointer none f = (f, refl)
add_rest-Fits pointer (some []) f = (f, refl)
add_rest-Fits wild (some (c ∷ s)) f = tt
add_rest-Fits dangling (some (c ∷ s)) f = tt
add_rest-Fits (live letter) (some (c ∷ s)) f = ground (arith, add_line-Fits letter (c ∷ s) f)

module _ (pcre : Pcre) (patterns : Patterns) (host : Host) (conn : Conn) (disk : Disk) where
  pub data_end-Keeps :
      (given : Option Bytes)
      → conn.state ≡ process_data_end
      → FitsBlocks conn.letter
      → Keeps (data_end_handler table_step pcre patterns host conn disk given)
  data_end-Keeps given s f =
      unfold data_end_handler store_mail in ground (arith, add_rest-Fits conn.letter given f)

  -- From process_data_recv the end of a mail leads to process_data_end.
  end_mail_lem :
      (text : Bytes)
      → conn.state ≡ process_data_recv
      → end_mail table_step pcre patterns host conn disk text
        ≡ data_end_handler table_step pcre patterns host
            (record conn { old_state = conn.state; state = process_data_end })
            disk
            (some text)
  unfolding end_mail
  end_mail_lem text s = rw s refl

module _ (pcre : Pcre) (patterns : Patterns) (host : Host) (conn : Conn) (disk : Disk) where
  end_mail-Keeps :
      (text : Bytes)
      → conn.state ≡ process_data_recv
      → FitsBlocks conn.letter
      → Keeps (end_mail table_step pcre patterns host conn disk text)
  end_mail-Keeps text s f = rw (end_mail_lem pcre patterns host conn disk text s) (
      data_end-Keeps pcre patterns host
        (record conn { old_state = conn.state; state = process_data_end }) disk (some text) refl f)

  add_to_mail-Keeps :
      (text : Bytes)
      → conn.state ≡ process_data_recv
      → length conn.send_buf < send_buf_size
      → FitsBlocks conn.letter
      → Keeps (add_to_mail table_step pcre patterns host conn disk text)
  add_to_mail-Keeps text s b f = grounded conn.letter refl
    where
      grounded :
          (p : LetterPointer)
          → conn.letter ≡ p
          → Keeps (add_to_mail table_step pcre patterns host conn disk text)
      grounded wild e = unfold add_to_mail in ground arith
      grounded dangling e = unfold add_to_mail in ground arith
      grounded (live l) e = unfold add_to_mail in ground (arith, add_line-Fits l text)

  pub data_recv-Keeps :
      (given : Option Bytes)
      → conn.state ≡ process_data_recv
      → length conn.send_buf < send_buf_size
      → FitsBlocks conn.letter
      → Keeps (data_recv_handler table_step pcre patterns host conn disk given)
  data_recv-Keeps none s b f = unfold data_recv_handler in tt
  data_recv-Keeps (some text) s b f =
      ground (arith, data_recv_lem text, end_mail-Keeps text s f, add_to_mail-Keeps text s b f)
    where
      data_recv_lem :
          (text : Bytes)
          → data_recv_handler table_step pcre patterns host conn disk (some text) ≡ (
              require (leb 5 (length text)) underrun
              >> (if str_eq (drop (length text - 5) text) ending
                  then end_mail table_step pcre patterns host conn disk text
                  else add_to_mail table_step pcre patterns host conn disk text))
      data_recv_lem text = unfold data_recv_handler in refl
