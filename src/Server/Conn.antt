-- ===== src/Server/Conn.antt =====
-- The connection record of smtp_proj/server/include/conn.h with `conn_create` and `conn_free` of
-- smtp_proj/server/src/conn.c. A buffer is the C string in it.
use pvs_course_project.Base.{[], Bytes, ℕ, Run, ok, fault, dangling_pointer}
use pvs_course_project.Server.Fsm.{ServerState}
use pvs_course_project.Server.Stopwatch.{Timeval}
use pvs_course_project.Server.Letter.{LetterPointer, wild}

abbrev pub send_buf_size : ℕ
send_buf_size = 1024

abbrev pub recv_buf_size : ℕ
recv_buf_size = 1024

pub record Conn : Type 0 where
  pub send_buf : Bytes
  pub recv_buf : Bytes
  pub state : ServerState
  pub old_state : ServerState
  pub letter : LetterPointer
  pub watch : Timeval

-- An entry of `connections`: null, freed and not reset, or a connection.
pub data Slot : Type 0 where
  null freed : Slot
  used : Conn → Slot

-- `malloc` leaves the fields other than the buffers unset: the states and the watch are arguments,
-- and the letter is a wild pointer.
unfoldable pub conn_create : ServerState → ServerState → Timeval → Conn
conn_create state old_state watch = record {
  send_buf = [];
  recv_buf = [];
  state = state;
  old_state = old_state;
  letter = wild;
  watch = watch;
}

unfoldable pub conn_free : Slot → Run Slot
conn_free null = ok null
conn_free freed = fault dangling_pointer
conn_free (used conn) = ok freed
