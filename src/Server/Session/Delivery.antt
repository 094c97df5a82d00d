-- ===== src/Server/Session/Delivery.antt =====
-- A whole mail through the handlers of smtp_proj/server/src/protocol.c, from MAIL to the end of the
-- text.
use pvs_course_project.Base.{
  ◌≡◌, refl, ap, ◌∙◌, ◌<◌, true, false, List, [], ◌∷◌, ◌++◌, Option, none, some, Bytes, length, ok,
  All, codes,
}
use pvs_course_project.Server.Fsm.{
  ServerState, ServerEvent, IsAutoFsm, IsAutoFsm-table_step, table_step, table_step-IsAutoFsm,
  expect_mail, expect_rcpt, expect_data, expect_data_recv,
}
use pvs_course_project.Server.Pattern.{
  pt_mail, pt_rcpt, pt_data, pt_data_end, Pcre, Patterns, pattern_email,
}
use pvs_course_project.Server.Letter.{Letter, live, dangling, field_size, body_size}
use pvs_course_project.Server.Maildir.{Disk, usr_local, maildir_ensure_user, maildir_get_fname}
use pvs_course_project.Server.Maildir.Laws.{ensure_user-Grows}
use pvs_course_project.Server.Conn.{Conn}
use pvs_course_project.Server.Protocol.{classify, is_empty, response_250, response_250_saved}
use pvs_course_project.Server.Handlers.{mail_text}
use pvs_course_project.Server.Update.{Tick}
use pvs_course_project.Server.Session.{hear, converse}
use pvs_course_project.Server.Session.Plain.{after_plain, serve_command_plain}
use pvs_course_project.Server.Session.Steps.{
  IsTimely, update_conn_served, serve_rcpt, serve_data_end,
}
use pvs_course_project.Server.Session.Body.{body_of, IsBodyText, converse-cons, body_lem}

-- The texts of one mail and what pcre and the host make of them.
pub record IsMail (pcre : Pcre) (patterns : Patterns) (mail rcpt begin end : Tick × Bytes)
    (lines : List (Tick × Bytes)) (from to user domain filename : Bytes) : Type 0 where
  pub timely : IsTimely mail.0 × IsTimely rcpt.0 × IsTimely begin.0 × IsTimely end.0
  pub not_empty :
      (is_empty mail.1 ≡ false)
      × (is_empty rcpt.1 ≡ false)
      × (is_empty begin.1 ≡ false)
      × (is_empty end.1 ≡ false)
  pub mail_known : classify pcre patterns mail.1 ≡ (pt_mail, some from)
  pub rcpt_known : classify pcre patterns rcpt.1 ≡ (pt_rcpt, some to)
  pub begin_known : classify pcre patterns begin.1 ≡ (pt_data, none)
  pub end_known : classify pcre patterns end.1 ≡ (pt_data_end, none)
  pub address : pattern_email pcre patterns to ≡ some (some user, some domain)
  pub address_fits :
      (length to < field_size) × (length user < field_size) × (length domain < field_size)
  pub body_known : All (IsBodyText pcre patterns) lines
  pub body_fits : length (body_of lines) < body_size
  pub filed : maildir_get_fname (end.0).host user domain ≡ ok filename
  pub opened : (end.0).host.fopen filename ≡ true

module _ (pcre : Pcre) (patterns : Patterns) (mail rcpt begin end : Tick × Bytes)
    (lines : List (Tick × Bytes)) (from to user domain filename : Bytes)
    (m : IsMail pcre patterns mail rcpt begin end lines from to user domain filename) where
  -- What the mail leaves in the file.
  abbrev stored : Letter
  stored = record {
    mail_from = from;
    rcpt_to = to;
    rcpt_username = user;
    rcpt_domain = domain;
    body = body_of lines;
  }

  envelope_lem :
      (others : List (Tick × Bytes)) (conn : Conn) (disk : Disk)
      → conn.state ≡ expect_mail
      → (next : Conn) × (converse table_step pcre patterns (mail ∷ rcpt ∷ begin ∷ others) conn disk
          ≡ converse table_step pcre patterns others next disk)
        × (next.state ≡ expect_data_recv)
        × (next.letter ≡ live (record stored { body = [] }))
  envelope_lem others conn disk s =
      let begun : Conn = record (after_plain (hear mail.1 conn) pt_mail (some from)) {
        recv_buf = [];
        watch = (mail.0).started;
      } in
      let addressed : Conn = record begun {
        send_buf = response_250;
        old_state = expect_rcpt;
        state = expect_data;
        letter = live (record stored { body = [] });
        watch = (rcpt.0).started;
      } in
      let ready : Conn = record (after_plain (hear begin.1 addressed) pt_data none) {
        recv_buf = [];
        watch = (begin.0).started;
      } in
      (
        ready,
        converse-cons pcre patterns mail.0 mail.1 (rcpt ∷ begin ∷ others) conn begun disk disk (
              update_conn_served table_step pcre patterns mail.0 (hear mail.1 conn) disk pt_mail
                (some from) (after_plain (hear mail.1 conn) pt_mail (some from)) disk m.not_empty.0
                m.mail_known refl
                (serve_command_plain table_step table_step-IsAutoFsm pcre patterns (mail.0).host
                  (hear mail.1 conn) disk pt_mail (some from) (rw s refl) refl (rw s refl))
                refl m.timely.0)
            ∙ converse-cons pcre patterns rcpt.0 rcpt.1 (begin ∷ others) begun addressed disk disk (
                update_conn_served table_step pcre patterns rcpt.0 (hear rcpt.1 begun) disk pt_rcpt
                  (some to) (record addressed { recv_buf = rcpt.1; watch = begun.watch }) disk
                  m.not_empty.1 m.rcpt_known refl
                  (serve_rcpt pcre patterns (rcpt.0).host (hear rcpt.1 begun) disk
                    (record stored {
                      rcpt_to = [];
                      rcpt_username = [];
                      rcpt_domain = [];
                      body = [];
                    })
                    to user domain refl refl m.address m.address_fits.0 m.address_fits.1
                    m.address_fits.2)
                  refl m.timely.1)
            ∙ converse-cons pcre patterns begin.0 begin.1 others addressed ready disk disk (
                update_conn_served table_step pcre patterns begin.0 (hear begin.1 addressed) disk
                  pt_data none (after_plain (hear begin.1 addressed) pt_data none) disk
                  m.not_empty.2 m.begin_known refl
                  (serve_command_plain table_step table_step-IsAutoFsm pcre patterns (begin.0).host
                    (hear begin.1 addressed) disk pt_data none refl refl refl)
                  refl m.timely.2),
        refl,
        refl,
      )

  end_lem :
      (conn : Conn) (disk : Disk)
      → conn.state ≡ expect_data_recv
      → conn.letter ≡ live stored
      → (final : Conn) × (written : Disk) × (converse table_step pcre patterns (end ∷ []) conn disk
          ≡ ok (final, written))
        × (final.state ≡ expect_mail)
        × (final.send_buf ≡ response_250_saved)
        × (written.files ≡ (filename, mail_text stored) ∷ disk.files)
  end_lem conn disk s l =
      let made = maildir_ensure_user (end.0).host disk user usr_local in
      let final : Conn = record conn {
        send_buf = response_250_saved;
        recv_buf = [];
        old_state = conn.state;
        state = expect_mail;
        letter = dangling;
        watch = (end.0).started;
      } in
      let written : Disk = record made { files = (filename, mail_text stored) ∷ made.files } in
      (
        final,
        written,
        converse-cons pcre patterns end.0 end.1 [] conn final disk written (
              update_conn_served table_step pcre patterns end.0 (hear end.1 conn) disk pt_data_end
                none (record final { recv_buf = end.1; watch = conn.watch }) written m.not_empty.3
                m.end_known refl
                (serve_data_end pcre patterns (end.0).host (hear end.1 conn) disk stored filename s
                  l m.filed m.opened)
                refl m.timely.3)
            ∙ (unfold converse in refl),
        refl,
        refl,
        ap (λ files. (filename, mail_text stored) ∷ files)
            (ensure_user-Grows (end.0).host disk user usr_local).0,
      )

  -- A mail that is sent in the protocol's order is stored, whatever its texts are: from a connection
  -- that waits for a mail, the texts of MAIL, RCPT and DATA, the texts of the body and the dot that
  -- ends it lead through the handlers without an exit or a fault; one file is written, under the
  -- name that the maildir gives, with the sender, the recipient and the body in the order in which
  -- its texts came; the client is told so, and the connection waits for a mail again.
  pub mail_is_stored :
      (server_step : ServerState → ServerEvent → Option ServerState)
      → IsAutoFsm server_step
      → (conn : Conn) (disk : Disk) → conn.state ≡ expect_mail
      → (final : Conn) × (written : Disk) × (converse server_step pcre patterns
            (mail ∷ rcpt ∷ begin ∷ (lines ++ end ∷ []))
            conn
            disk
          ≡ ok (final, written))
        × (final.state ≡ expect_mail)
        × (final.send_buf ≡ response_250_saved)
        × (written.files
            ≡ (filename, from ++ codes "\n" ++ to ++ codes "\n" ++ body_of lines ++ codes "\n")
              ∷ disk.files)
  mail_is_stored server_step law conn disk s = rw (IsAutoFsm-table_step server_step law) stored_lem
    where
      stored_lem :
          (final : Conn) × (written : Disk) × (converse table_step pcre patterns
              (mail ∷ rcpt ∷ begin ∷ (lines ++ end ∷ []))
              conn
              disk
            ≡ ok (final, written))
          × (final.state ≡ expect_mail)
          × (final.send_buf ≡ response_250_saved)
          × (written.files ≡ (filename, mail_text stored) ∷ disk.files)
      stored_lem =
          let (next, run, ns, nl) = envelope_lem (lines ++ end ∷ []) conn disk s in
          let (full, body_run, fs, fl) =
            body_lem pcre patterns lines (end ∷ []) next disk (record stored { body = [] })
              m.body_known ns nl m.body_fits in
          let (final, written, last, waits, told, filed) = end_lem full disk fs fl in
          (final, written, run ∙ (body_run ∙ last), waits, told, filed)
