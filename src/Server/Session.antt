-- ===== src/Server/Session.antt =====
-- A session with one client: the texts that it sends, each passed to `protocol_update`
-- (smtp_proj/server/src/protocol.c) as conn_update of smtp_proj/server/src/conn.c hands it over.
pub mod Plain
pub mod Steps
pub mod Body
pub mod Delivery
pub mod Faults
use pvs_course_project.Base.{List, [], ◌∷◌, Option, none, some, Bytes, Run, ok, ◌>>=◌}
use pvs_course_project.Server.Fsm.{
  ServerState, disconnected, ready, expect_mail, expect_rcpt, expect_data, expect_data_recv,
  ServerEvent,
}
use pvs_course_project.Server.Pattern.{
  PatternType, pt_quit, pt_rset, pt_vrfy, pt_helo, pt_ehlo, pt_mail, pt_rcpt, pt_data, pt_data_end,
  pt_data_recv, Pcre, Patterns,
}
use pvs_course_project.Server.Maildir.{Disk}
use pvs_course_project.Server.Conn.{Conn}
use pvs_course_project.Server.Update.{Tick, update_conn}

-- `strcpy(conn->recv_buf, buf)`, behind the `memset` of the reply that was sent.
abbrev pub hear : Bytes → Conn → Conn
hear text conn = record conn { recv_buf = text; send_buf = [] }

module _ (server_step : ServerState → ServerEvent → Option ServerState) (pcre : Pcre)
    (patterns : Patterns) where
  unfoldable pub converse : List (Tick × Bytes) → Conn → Disk → Run (Conn × Disk)
  converse [] conn disk = ok (conn, disk)
  converse ((tick, text) ∷ others) conn disk = do
    (next, written) ← update_conn server_step pcre patterns tick (hear text conn) disk
    converse others next written

-- The state in which a command leaves the session, if it succeeds.
abbrev pub follow : ServerState → PatternType → ServerState
follow s pt_quit = disconnected
follow s pt_rset = ready
follow s pt_helo = expect_mail
follow s pt_ehlo = expect_mail
follow s pt_mail = expect_rcpt
follow s pt_rcpt = expect_data
follow s pt_data = expect_data_recv
follow s pt_data_recv = expect_data_recv
follow s pt_data_end = expect_mail
follow s _ = s
