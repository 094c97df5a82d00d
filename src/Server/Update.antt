-- ===== src/Server/Update.antt =====
-- `protocol_update` of smtp_proj/server/src/protocol.c: the body of its loop in three parts, in the
-- order of the code, and the loop. A tick gives what the host and the clock return meanwhile.
pub mod Order
pub mod Command
pub mod Valid
pub mod Carried
pub mod Served
pub mod Invariant
use pvs_course_project.Base.{
  ℕ, suc, ◌+◌, Bool, true, false, not, ◌&&◌, ◌||◌, List, [], ◌∷◌, Option, none, some, Bytes, Run,
  ok, fault, exited, dangling_pointer, ◌>>=◌, ◌>>◌, if◌then◌else◌,
}
use pvs_course_project.Base.Int.{ltb_ℤ}
use pvs_course_project.Server.Fsm.{ServerState, disconnected, ServerEvent, connect, okay}
use pvs_course_project.Server.Pattern.{PatternType, Pcre, Patterns}
use pvs_course_project.Server.Stopwatch.{Timeval, stopwatch_watch}
use pvs_course_project.Server.Maildir.{Disk, Host}
use pvs_course_project.Server.Conn.{Conn, Slot, null, freed, used}
use pvs_course_project.Server.Protocol.{
  say, classify, advance, event_map, is_end, is_data_recv, expects_data, is_init, is_empty,
  conn_timeout, response_220, response_421_timeout, response_500,
}
use pvs_course_project.Server.Handlers.{process_bind}

pub record Tick : Type 0 where
  pub host : Host
  pub started : Timeval
  pub watched : Timeval

module _ (server_step : ServerState → ServerEvent → Option ServerState) where
  -- `if (conn->state == SERVER_ST_INIT) …`
  unfoldable pub greet : Conn → Run Conn
  unfolding advance
  greet conn =
      let greeted = (do
        first ← advance server_step (record conn { old_state = conn.state }) connect
        second ← advance server_step (record first { old_state = first.state }) okay
        ok (say response_220 second)) in
      if is_init conn.state then greeted else ok conn

-- `if (stopwatch_watch(conn->watch) > CONN_TIMEOUT) …`
unfoldable pub expire : Tick → Conn → Conn
unfolding stopwatch_watch
expire tick conn =
    if ltb_ℤ conn_timeout (stopwatch_watch conn.watch tick.watched)
    then say response_421_timeout (record conn { old_state = conn.state; state = disconnected })
    else conn

module _ (server_step : ServerState → ServerEvent → Option ServerState) (pcre : Pcre)
    (patterns : Patterns) where
  -- A command that the loop over the patterns has recognised.
  unfoldable pub serve_command : Host → Conn → Disk → PatternType → Option Bytes → Run (Conn × Disk)
  unfolding advance process_bind
  serve_command host conn disk type content = do
    next ← advance server_step (record conn { old_state = conn.state }) (event_map type)
    process_bind server_step pcre patterns host next.state next disk
        (if is_data_recv type then some conn.recv_buf else content)

  unfoldable pub serve_text : Host → Conn → Disk → PatternType × Option Bytes → Run (Conn × Disk)
  unfolding serve_command
  serve_text host conn disk (type, content) =
      if is_end type || (is_data_recv type && not (expects_data conn.state))
      then ok (say response_500 conn, disk)
      else serve_command host conn disk type content

  -- `if (conn->recv_buf[0] != '\0') …`
  unfoldable pub receive : Tick → Conn → Disk → Run (Conn × Disk)
  unfolding classify serve_text
  receive tick conn disk =
      let served =
        serve_text tick.host conn disk (classify pcre patterns conn.recv_buf)
        >>= (λ r. ok (record (r.0) { recv_buf = []; watch = tick.started }, r.1)) in
      if is_empty conn.recv_buf then ok (conn, disk) else served

  unfoldable pub update_conn : Tick → Conn → Disk → Run (Conn × Disk)
  unfolding receive greet expire
  update_conn tick conn disk = do
    (heard, written) ← receive tick conn disk
    greeted ← greet server_step heard
    ok (expire tick greeted, written)

  -- The loop over the table; the connection `i` has the tick `ticks i`.
  unfoldable pub protocol_update : (ℕ → Tick) → ℕ → List Slot → Disk → Run (List Slot × Disk)
  unfolding update_conn
  protocol_update ticks i [] disk = ok ([], disk)
  protocol_update ticks i (null ∷ slots) disk = do
    (others, written) ← protocol_update ticks (suc i) slots disk
    ok (null ∷ others, written)
  protocol_update ticks i (freed ∷ slots) disk = fault dangling_pointer
  protocol_update ticks i (used conn ∷ slots) disk = do
    (next, first) ← update_conn (ticks i) conn disk
    (others, written) ← protocol_update ticks (suc i) slots first
    ok (used next ∷ others, written)
