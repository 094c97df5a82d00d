-- ===== src/Server/Update/Valid.antt =====
-- What holds of a connection between two calls of `protocol_update`
-- (smtp_proj/server/src/protocol.c).
use pvs_course_project.Base.{◌<◌, ◌≡◌, Bool, true, false, length, Run, Returns}
use pvs_course_project.Server.Fsm.{
  ServerState, expect_rcpt, process_rcpt, expect_data, process_data, expect_data_recv,
  process_data_recv, process_data_end,
}
use pvs_course_project.Server.Letter.{LetterPointer, live, field_size, body_size}
use pvs_course_project.Server.Maildir.{Disk}
use pvs_course_project.Server.Conn.{Conn, send_buf_size}
use pvs_course_project.Server.Update.Order.{is_waiting}

abbrev pub is_live : LetterPointer → Bool
is_live (live _) = true
is_live _ = false

-- The states in which a mail has been begun.
abbrev pub holds_mail : ServerState → Bool
holds_mail expect_rcpt = true
holds_mail expect_data = true
holds_mail expect_data_recv = true
holds_mail process_rcpt = true
holds_mail process_data = true
holds_mail process_data_recv = true
holds_mail process_data_end = true
holds_mail _ = false

-- The texts of a letter lie within their blocks.
abbrev pub FitsBlocks : LetterPointer → Type 0
FitsBlocks (live l) =
    (length l.rcpt_to < field_size)
    × (length l.rcpt_username < field_size)
    × (length l.rcpt_domain < field_size)
    × (length l.body < body_size)
FitsBlocks _ = Unit

pub record IsValid (c : Conn) : Type 0 where
  pub waits : is_waiting c.state ≡ true
  pub letter_live : holds_mail c.state ≡ true → is_live c.letter ≡ true
  pub letter_fits : FitsBlocks c.letter
  pub reply_fits : length c.send_buf < send_buf_size

abbrev pub Keeps : Run (Conn × Disk) → Type 0
Keeps = Returns (λ r. IsValid r.0)
