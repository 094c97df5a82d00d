-- ===== src/Client/Domain/Delivery.antt =====
-- A whole mail through the client: the four turns of smtp_proj/client/src/domain_proc.c from MAIL FROM
-- to the body.
use pvs_course_project.Base.{
  ◌≡◌, refl, ◌∙◌, List, [], ◌∷◌, ◌++◌, none, some, Bytes, codes, ok, arith, All,
}
use pvs_course_project.Base.Int.{ℤ}
use pvs_course_project.Common.Replace.{str_replace}
use pvs_course_project.Client.Fsm.{
  State, st_send_mail_from, st_send_rcpt_to, st_send_data, st_send_body, st_send_quit, ev_ok,
  client_fsm_step,
}
use pvs_course_project.Client.MailList.{Nodes, remove_first}
use pvs_course_project.Client.MailList.Laws.{nodes_of, count_lem}
use pvs_course_project.Client.Requests.{
  Domain, World, Os, read_msg_file, send_data_msg, send_for_state, send_msg_to_server,
}
use pvs_course_project.Client.Requests.Lines.{lines, IsShort, IsOpen, post, send_data_open}
use pvs_course_project.Client.Requests.Sending.{
  send_mail_from_lem, send_rcpt_to_lem, send_msg_body_lem,
}
use pvs_course_project.Client.Domain.{Sockets, sent_mail}
use pvs_course_project.Client.Domain.Turns.{
  Received, turn, turns, IsFine, ready, turn_lem, turn_body_lem, turns-cons, turns-nil,
}

abbrev pub mail_from : Bytes → Bytes
mail_from from = codes "MAIL FROM: <" ++ from ++ codes ">\n"

abbrev pub rcpt_to : Bytes → Bytes
rcpt_to to = codes "RCPT TO:<" ++ to ++ codes ">\n"

-- The state after the body, by the mails that are left.
abbrev after_body : List Bytes → State
after_body [] = st_send_quit
after_body (mail ∷ mails) = st_send_mail_from

module _ (os : Os) (open_all : IsOpen os) (fd : ℤ) (d : Domain) where
  turn_mail_from :
      (r : Received) (world : World) (s : Sockets) (mail moved content from : Bytes) (next : Nodes)
      (ws : List Bytes)
      → IsFine r
      → read_msg_file os world mail ≡ ok (some content)
      → str_replace mail (codes "new") (codes "cur") ≡ ok moved
      → lines content ≡ from ∷ ws
      → IsShort 14 from
      → (d1 : Domain) × (rest : Bytes) × (s1 : Sockets) × (lines rest ≡ ws)
        × (turn os r (ready fd st_send_mail_from (some mail ∷ next) d, world, s)
            ≡ ok (
              ready fd st_send_rcpt_to (some mail ∷ next) d1,
              record {
                sent = (fd, mail_from from) ∷ world.sent;
                renamed = (mail, moved) ∷ world.renamed;
                saved = some rest;
              },
              s1,
            ))
  turn_mail_from r world s mail moved content from next ws fine read renamed text short =
      let world0 = record world { renamed = (mail, moved) ∷ world.renamed } in
      let (rest, left, sent) =
        send_mail_from_lem os open_all fd content from ws world0 text short in
      let d1 = record d { buffer = some content; request_buf = mail_from from } in
      let world1 : World = record {
        sent = (fd, mail_from from) ∷ world.sent;
        renamed = (mail, moved) ∷ world.renamed;
        saved = some rest;
      } in
      (
        d1,
        rest,
        _,
        left,
        turn_lem os r (ready fd st_send_mail_from (some mail ∷ next) d)
            (ready fd st_send_mail_from (some mail ∷ next) d1) world world1 s st_send_rcpt_to fine
            (unfold send_msg_to_server in unfold send_for_state in rw (read, renamed, sent) refl)
            refl (unfold client_fsm_step in refl),
      )

  turn_rcpt_to :
      (r : Received) (world : World) (s : Sockets) (mails : Nodes) (text to : Bytes)
      (ws : List Bytes)
      → IsFine r
      → world.saved ≡ some text
      → lines text ≡ to ∷ ws
      → IsShort 12 to
      → (d1 : Domain) × (rest : Bytes) × (s1 : Sockets) × (lines rest ≡ ws)
        × (turn os r (ready fd st_send_rcpt_to mails d, world, s)
            ≡ ok (
              ready fd st_send_data mails d1,
              record world { sent = (fd, rcpt_to to) ∷ world.sent; saved = some rest },
              s1,
            ))
  turn_rcpt_to r world s mails text to ws fine kept text_lines short =
      let (rest, left, sent) =
        send_rcpt_to_lem os open_all fd text to ws world kept text_lines short in
      let d1 = record d { request_buf = rcpt_to to } in
      let world1 = record world { sent = (fd, rcpt_to to) ∷ world.sent; saved = some rest } in
      (
        d1,
        rest,
        _,
        left,
        turn_lem os r (ready fd st_send_rcpt_to mails d) (ready fd st_send_rcpt_to mails d1) world
            world1 s st_send_data fine
            (unfold send_msg_to_server in unfold send_for_state in rw sent refl) refl
            (unfold client_fsm_step in refl),
      )

  turn_data :
      (r : Received) (world : World) (s : Sockets) (mails : Nodes)
      → IsFine r
      → (d1 : Domain) × (s1 : Sockets) × (turn os r (ready fd st_send_data mails d, world, s)
          ≡ ok (
            ready fd st_send_body mails d1,
            record world { sent = (fd, codes "DATA\n") ∷ world.sent },
            s1,
          ))
  turn_data r world s mails fine =
      let d1 = record d { request_buf = codes "DATA\n" } in
      (
        d1,
        _,
        turn_lem os r (ready fd st_send_data mails d) (ready fd st_send_data mails d1) world
            (record world { sent = (fd, codes "DATA\n") ∷ world.sent }) s st_send_body fine
            (unfold send_msg_to_server in
              unfold send_for_state in
              unfold send_data_msg in
              rw (send_data_open os open_all (codes "DATA\n") fd world) refl)
            refl (unfold client_fsm_step in refl),
      )

  sent_mail_lem :
      (mail : Bytes) (mails : List Bytes) (d1 : Domain)
      → sent_mail (ready fd st_send_body (nodes_of (mail ∷ mails)) d1) ev_ok
        ≡ ok (ready fd (after_body mails) (nodes_of mails) (record d1 { buffer = none }))
  unfolding remove_first client_fsm_step
  sent_mail_lem mail [] d1 = rw (count_lem []) refl
  sent_mail_lem mail (next ∷ mails) d1 = rw (count_lem (next ∷ mails)) (ground arith)

  turn_body :
      (r : Received) (world : World) (s : Sockets) (mail : Bytes) (mails : List Bytes)
      (text : Bytes) (ws : List Bytes)
      → IsFine r
      → world.saved ≡ some text
      → lines text ≡ ws
      → All (IsShort 1) ws
      → (d1 : Domain) × (s1 : Sockets) × (turn os r
            (ready fd st_send_body (nodes_of (mail ∷ mails)) d, world, s)
          ≡ ok (
            ready fd (after_body mails) (nodes_of mails) d1,
            record world {
              sent = (fd, codes "\r\n.\r\n") ∷ post fd ws world.sent;
              saved = some [];
            },
            s1,
          ))
  turn_body r world s mail mails text ws fine kept text_lines short =
      let world1 = record world {
        sent = (fd, codes "\r\n.\r\n") ∷ post fd ws world.sent;
        saved = some [];
      } in
      let d1 = record d { request_buf = [] } in
      (
        record d1 { buffer = none },
        _,
        turn_body_lem os r (ready fd st_send_body (nodes_of (mail ∷ mails)) d)
            (ready fd st_send_body (nodes_of (mail ∷ mails)) d1)
            (ready fd (after_body mails) (nodes_of mails) (record d1 { buffer = none })) world
            world1 s fine
            (unfold send_msg_to_server in
              unfold send_for_state in
              rw (send_msg_body_lem os open_all fd text ws world kept text_lines short) refl)
            refl (sent_mail_lem mail mails d1),
      )

-- A worker that has a mail to send sends it whole. From MAIL FROM on, with a server whose replies to
-- MAIL FROM, RCPT TO, DATA and the body are fine, and with writes that get through, the file of the
-- first mail of the list is renamed and what is written to the socket, in this order, is MAIL FROM
-- with the first line of the file, RCPT TO with the second, DATA, each further line, and the final
-- dot; the mail is off the list, and the state is MAIL FROM if there are mails left and QUIT if there
-- are none. The lines are those of the file that are not empty, and each must fit the request buffer
-- behind its command.
pub mail_is_sent :
    (os : Os) (fd : ℤ) (d : Domain) (world : World) (s : Sockets) (r1 r2 r3 r4 : Received)
    (mail : Bytes) (mails : List Bytes) (moved content from to : Bytes) (ws : List Bytes)
    → IsOpen os
    → (IsFine r1 × IsFine r2 × IsFine r3 × IsFine r4)
    → read_msg_file os world mail ≡ ok (some content)
    → str_replace mail (codes "new") (codes "cur") ≡ ok moved
    → lines content ≡ from ∷ to ∷ ws
    → (IsShort 14 from × IsShort 12 to × All (IsShort 1) ws)
    → (d1 : Domain) × (s1 : Sockets) × (turns os
          (r1 ∷ r2 ∷ r3 ∷ r4 ∷ [])
          (ready fd st_send_mail_from (nodes_of (mail ∷ mails)) d, world, s)
        ≡ ok (
          ready fd (after_body mails) (nodes_of mails) d1,
          record {
            sent =
                (fd, codes "\r\n.\r\n")
                ∷ post fd ws
                    ((fd, codes "DATA\n") ∷ (fd, rcpt_to to) ∷ (fd, mail_from from) ∷ world.sent);
            renamed = (mail, moved) ∷ world.renamed;
            saved = some [];
          },
          s1,
        ))
mail_is_sent os fd d world s r1 r2 r3 r4 mail mails moved content from to ws open_all
      (f1, f2, f3, f4) read renamed text (short1, short2, shorts) =
    let (d1, rest1, s1, left1, t1) =
      turn_mail_from os open_all fd d r1 world s mail moved content from (nodes_of mails) (to ∷ ws)
        f1 read renamed text short1 in
    let world1 : World = record {
      sent = (fd, mail_from from) ∷ world.sent;
      renamed = (mail, moved) ∷ world.renamed;
      saved = some rest1;
    } in
    let (d2, rest2, s2, left2, t2) =
      turn_rcpt_to os open_all fd d1 r2 world1 s1 (nodes_of (mail ∷ mails)) rest1 to ws f2 refl
        left1 short2 in
    let world2 = record world1 { sent = (fd, rcpt_to to) ∷ world1.sent; saved = some rest2 } in
    let (d3, s3, t3) = turn_data os open_all fd d2 r3 world2 s2 (nodes_of (mail ∷ mails)) f3 in
    let world3 = record world2 { sent = (fd, codes "DATA\n") ∷ world2.sent } in
    let (d4, s4, t4) =
      turn_body os open_all fd d3 r4 world3 s3 mail mails rest2 ws f4 refl left2 shorts in
    (
      d4,
      s4,
      turns-cons os r1 _ _ _ t1
          ∙ (turns-cons os r2 _ _ _ t2
              ∙ (turns-cons os r3 _ _ _ t3 ∙ (turns-cons os r4 _ _ _ t4 ∙ turns-nil os _))),
    )
