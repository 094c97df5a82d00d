-- ===== src/Server/Session/Body.antt =====
-- The body of a mail, text by text, through the handlers of smtp_proj/server/src/protocol.c.
use pvs_course_project.Base.{
  ◌-◌, ◌≡◌, refl, ap, ◌∙◌, ◌≤◌, ◌<◌, false, List, [], ◌∷◌, ◌++◌, append_assoc, append-nil, Bytes,
  length, length-append, drop, str_eq, ok, arith, All,
}
use pvs_course_project.Server.Fsm.{table_step, expect_data_recv}
use pvs_course_project.Server.Pattern.{pt_data_recv, Pcre, Patterns}
use pvs_course_project.Server.Letter.{Letter, live, body_size}
use pvs_course_project.Server.Maildir.{Disk}
use pvs_course_project.Server.Conn.{Conn}
use pvs_course_project.Server.Protocol.{classify, is_empty}
use pvs_course_project.Server.Handlers.{ending, crlf}
use pvs_course_project.Server.Update.{Tick, update_conn}
use pvs_course_project.Server.Session.{hear, converse}
use pvs_course_project.Server.Session.Steps.{IsTimely, update_conn_served, serve_data_recv}

-- What a list of texts adds to the body.
abbrev pub body_of : List (Tick × Bytes) → Bytes
body_of [] = []
body_of ((tick, text) ∷ others) = text ++ (crlf ++ body_of others)

module _ (pcre : Pcre) (patterns : Patterns) where
  -- A text that is taken for a part of the body: no command fits it, it has five bytes or more, and
  -- its last five do not end the mail.
  abbrev pub IsBodyText : Tick × Bytes → Type 0
  IsBodyText (tick, text) =
      IsTimely tick
      × ((classify pcre patterns text).0 ≡ pt_data_recv)
      × (5 ≤ length text)
      × (str_eq (drop (length text - 5) text) ending ≡ false)

  pub converse-cons :
      (tick : Tick) (text : Bytes) (others : List (Tick × Bytes)) (conn next : Conn)
      (disk written : Disk)
      → update_conn table_step pcre patterns tick (hear text conn) disk ≡ ok (next, written)
      → converse table_step pcre patterns ((tick, text) ∷ others) conn disk
        ≡ converse table_step pcre patterns others next written
  unfolding converse
  converse-cons tick text others conn next disk written h = rw h

  full : (text : Bytes) → 5 ≤ length text → is_empty text ≡ false
  full [] h = absurd (omega arith)
  full (c ∷ s) h = refl

  body_text_lem :
      (tick : Tick) (text : Bytes) (others : List (Tick × Bytes)) (conn : Conn) (disk : Disk)
      (letter : Letter)
      → IsBodyText (tick, text)
      → conn.state ≡ expect_data_recv
      → conn.letter ≡ live letter
      → length ((letter.body ++ text) ++ crlf) < body_size
      → converse table_step pcre patterns ((tick, text) ∷ others) conn disk
        ≡ converse table_step pcre patterns others
            (record conn {
              send_buf = [];
              recv_buf = [];
              old_state = conn.state;
              state = expect_data_recv;
              letter = live (record letter { body = (letter.body ++ text) ++ crlf });
              watch = tick.started;
            })
            disk
  body_text_lem tick text others conn disk letter (timely, known, long, plain) s l fits =
      converse-cons tick text others conn _ disk disk (
        update_conn_served table_step pcre patterns tick (hear text conn) disk pt_data_recv
          (classify pcre patterns text).1 _ disk (full text long)
          (ap (λ t. (t, (classify pcre patterns text).1)) known) (rw s refl)
          (serve_data_recv pcre patterns tick.host (hear text conn) disk letter
            (classify pcre patterns text).1 s l long plain fits)
          refl timely)

  -- The parts of the body are put together in their order.
  pub body_lem :
      (lines others : List (Tick × Bytes)) (conn : Conn) (disk : Disk) (letter : Letter)
      → All IsBodyText lines
      → conn.state ≡ expect_data_recv
      → conn.letter ≡ live letter
      → length (letter.body ++ body_of lines) < body_size
      → (final : Conn) × (converse table_step pcre patterns (lines ++ others) conn disk
          ≡ converse table_step pcre patterns others final disk)
        × (final.state ≡ expect_data_recv)
        × (final.letter ≡ live (record letter { body = letter.body ++ body_of lines }))
  body_lem [] others conn disk letter t s l fits = (conn, refl, s, rw append-nil l)
  body_lem ((tick, text) ∷ lines) others conn disk letter (t, ts) s l fits =
      let body = (letter.body ++ text) ++ crlf in
      let assoc : body ++ body_of lines ≡ letter.body ++ (text ++ (crlf ++ body_of lines)) =
        simp append_assoc in
      let next : Conn = record conn {
        send_buf = [];
        recv_buf = [];
        old_state = conn.state;
        state = expect_data_recv;
        letter = live (record letter { body = body });
        watch = tick.started;
      } in
      let (final, run, fs, fl) =
        body_lem lines others next disk (record letter { body = body }) ts refl refl
          (rw assoc fits) in
      (
        final,
        body_text_lem tick text (lines ++ others) conn disk letter t s l
              (omega (arith, ap length assoc, length-append body (body_of lines)))
            ∙ run,
        fs,
        fl ∙ ap (λ b. live (record letter { body = b })) assoc,
      )
