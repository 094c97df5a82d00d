-- ===== src/Client/Requests/Sending.antt =====
-- The mail that `send_msg_to_server` of smtp_proj/client/src/smtp_client.c sends, and how two domains
-- of one process disturb each other.
use pvs_course_project.Base.{
  suc, ◌≡◌, refl, ◌∙◌, ap, List, [], ◌∷◌, ◌++◌, some, Bytes, codes, length, length-append, Run, ok,
  strcpy_fits, ◌>>=◌, arith, All,
}
use pvs_course_project.Base.Int.{ℤ, pos}
use pvs_course_project.Client.Response.{max_buf_len}
use pvs_course_project.Client.Requests.{
  World, Os, send_data, send_mail_from, send_rcpt_to, send_msg_body,
}
use pvs_course_project.Client.Requests.Lines.{
  lines, IsShort, IsOpen, post, next_token-some, next_token-nil, next_token-saved, send_data_open,
  send_lines_lem, send_lines-none,
}

-- The end of `send_msg_body`, after its loop.
abbrev end_body : Os → ℤ → World → Run (ℤ × Bytes × World)
end_body os fd world =
    let (code, after) = send_data os (codes "\r\n.\r\n") fd world in ok (code, [], after)

module _ (os : Os) (open_all : IsOpen os) where
  pub send_mail_from_lem :
      (fd : ℤ) (text from : Bytes) (ws : List Bytes) (world : World)
      → lines text ≡ from ∷ ws
      → IsShort 14 from
      → (rest : Bytes) × (lines rest ≡ ws)
        × (send_mail_from os fd (some text) world
            ≡ ok (
              pos 0,
              codes "MAIL FROM: <" ++ from ++ codes ">\n",
              record world {
                sent = (fd, codes "MAIL FROM: <" ++ from ++ codes ">\n") ∷ world.sent;
                saved = some rest;
              },
            ))
  unfolding send_mail_from
  send_mail_from_lem fd text from ws world h short =
      let (rest, left, _, taken) = next_token-some world text from ws h in
      (
        rest,
        left,
        rw taken (
            rw
              (
                strcpy_fits max_buf_len (codes "MAIL FROM: <" ++ from) (omega (arith, short)),
                strcpy_fits max_buf_len (codes "MAIL FROM: <" ++ from ++ codes ">\n")
                    (omega (arith, short, length-append from (codes ">\n"))),
                send_data_open os open_all (codes "MAIL FROM: <" ++ from ++ codes ">\n") fd
                    (record world { saved = some rest }),
              )
              refl),
      )

  pub send_rcpt_to_lem :
      (fd : ℤ) (text to : Bytes) (ws : List Bytes) (world : World)
      → world.saved ≡ some text
      → lines text ≡ to ∷ ws
      → IsShort 12 to
      → (rest : Bytes) × (lines rest ≡ ws)
        × (send_rcpt_to os fd world
            ≡ ok (
              pos 0,
              codes "RCPT TO:<" ++ to ++ codes ">\n",
              record world {
                sent = (fd, codes "RCPT TO:<" ++ to ++ codes ">\n") ∷ world.sent;
                saved = some rest;
              },
            ))
  unfolding send_rcpt_to
  send_rcpt_to_lem fd text to ws world k h short =
      let (rest, left, _, taken) = next_token-some world text to ws h in
      (
        rest,
        left,
        rw (next_token-saved world text k, taken)
            (rw
              (
                strcpy_fits max_buf_len (codes "RCPT TO:<" ++ to) (omega (arith, short)),
                strcpy_fits max_buf_len (codes "RCPT TO:<" ++ to ++ codes ">\n")
                    (omega (arith, short, length-append to (codes ">\n"))),
                send_data_open os open_all (codes "RCPT TO:<" ++ to ++ codes ">\n") fd
                    (record world { saved = some rest }),
              )
              refl),
      )

  end_body_lem :
      (fd : ℤ) (world : World)
      → end_body os fd world
        ≡ ok (pos 0, [], record world { sent = (fd, codes "\r\n.\r\n") ∷ world.sent })
  end_body_lem fd world = rw (send_data_open os open_all (codes "\r\n.\r\n") fd world) refl

  pub send_msg_body_lem :
      (fd : ℤ) (text : Bytes) (ws : List Bytes) (world : World)
      → world.saved ≡ some text
      → lines text ≡ ws
      → All (IsShort 1) ws
      → send_msg_body os fd world
        ≡ ok (
          pos 0,
          [],
          record world { sent = (fd, codes "\r\n.\r\n") ∷ post fd ws world.sent; saved = some [] },
        )
  unfolding send_msg_body
  send_msg_body_lem fd text [] world k h short =
      rw (next_token-saved world text k, next_token-nil world text h)
        (ap (λ (run : Run World). run >>= end_body os fd)
            (send_lines-none os open_all 1 fd (record world { saved = some [] }))
          ∙ end_body_lem fd (record world { saved = some [] }))
  send_msg_body_lem fd text (w ∷ ws) world k h short =
      let (rest, left, _, taken) = next_token-some world text w ws h in
      rw (next_token-saved world text k, taken)
        (ap (λ (run : Run World). run >>= end_body os fd)
            (send_lines_lem os open_all (suc (length rest)) w rest ws fd
              (record world { saved = some rest }) refl left (omega arith) short)
          ∙ end_body_lem fd (record world { sent = post fd (w ∷ ws) world.sent; saved = some [] }))
