-- ===== src/Client/Requests/Clash.antt =====
-- Two domains of one worker process: `send_mail_from` and `send_rcpt_to` of
-- smtp_proj/client/src/smtp_client.c share the text that `strtok` keeps.
use pvs_course_project.Base.{◌≡◌, refl, List, ◌∷◌, ◌++◌, some, Bytes, codes, Run, ok, ◌>>=◌}
use pvs_course_project.Base.Int.{ℤ}
use pvs_course_project.Client.Requests.{World, Os, send_mail_from, send_rcpt_to}
use pvs_course_project.Client.Requests.Lines.{lines, IsShort, IsOpen}
use pvs_course_project.Client.Requests.Sending.{send_mail_from_lem, send_rcpt_to_lem}

-- MAIL FROM to one server, MAIL FROM to another, and then RCPT TO to the first.
unfoldable pub interleaved : Os → ℤ → Bytes → ℤ → Bytes → World → Run (List (ℤ × Bytes))
interleaved os fd_a mail_a fd_b mail_b world =
    send_mail_from os fd_a (some mail_a) world >>= λ (_, _, world1).
    (send_mail_from os fd_b (some mail_b) world1 >>= λ (_, _, world2).
    (send_rcpt_to os fd_a world2 >>= λ (_, _, world3). ok world3.sent))

-- If a worker begins a mail to a second server before it has sent RCPT TO to the first, then the first
-- server is given the recipient of the second mail, for any two mails with a sender and a recipient
-- and writes that get through.
pub interleaved_recipient :
    (os : Os) (fd_a fd_b : ℤ) (mail_a mail_b from_a from_b to_b : Bytes)
    (rest_a rest_b : List Bytes) (world : World)
    → IsOpen os
    → lines mail_a ≡ from_a ∷ rest_a
    → lines mail_b ≡ from_b ∷ to_b ∷ rest_b
    → (IsShort 14 from_a × IsShort 14 from_b × IsShort 12 to_b)
    → interleaved os fd_a mail_a fd_b mail_b world
      ≡ ok (
          (fd_a, codes "RCPT TO:<" ++ to_b ++ codes ">\n")
          ∷ (fd_b, codes "MAIL FROM: <" ++ from_b ++ codes ">\n")
          ∷ (fd_a, codes "MAIL FROM: <" ++ from_a ++ codes ">\n")
          ∷ world.sent)
unfolding interleaved
interleaved_recipient os fd_a fd_b mail_a mail_b from_a from_b to_b rest_a rest_b world open_all
      lines_a lines_b (short_a, short_b, short_to) =
    let sent1 = (fd_a, codes "MAIL FROM: <" ++ from_a ++ codes ">\n") ∷ world.sent in
    let (kept_a, left_a, e_a) =
      send_mail_from_lem os open_all fd_a mail_a from_a rest_a world lines_a short_a in
    let world1 = record world { sent = sent1; saved = some kept_a } in
    let (kept_b, left_b, e_b) =
      send_mail_from_lem os open_all fd_b mail_b from_b (to_b ∷ rest_b) world1 lines_b short_b in
    let world2 = record world1 {
      sent = (fd_b, codes "MAIL FROM: <" ++ from_b ++ codes ">\n") ∷ sent1;
      saved = some kept_b;
    } in
    let (kept_to, left_to, e_to) =
      send_rcpt_to_lem os open_all fd_a kept_b to_b rest_b world2 refl left_b short_to in
    rw e_a (rw e_b (rw e_to refl))
