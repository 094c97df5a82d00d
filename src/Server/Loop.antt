-- ===== src/Server/Loop.antt =====
-- `conn_update` of smtp_proj/server/src/conn.c, one call of the loop of a worker. The table of the
-- connections is indexed by descriptors. A round gives what the system calls return.
pub mod Sets
pub mod Kept
pub mod Told
pub mod Ended
pub mod Closed
pub mod Valid
use pvs_course_project.Base.{
  ℕ, zero, suc, ◌+◌, Bool, true, false, List, [], ◌∷◌, ◌++◌, Option, none, some, Bytes, length,
  drop, get_elem?, set, Run, ok, fault, null_pointer, dangling_pointer, overrun, require, strcpy,
  ◌>>=◌, ◌>>◌, ltb, ◌==◌, if◌then◌else◌,
}
use pvs_course_project.Base.Int.{ℤ, pos, negsuc}
use pvs_course_project.Server.Fsm.{ServerState, init, disconnected}
use pvs_course_project.Server.Stopwatch.{Timeval}
use pvs_course_project.Server.Conn.{
  Conn, Slot, null, freed, used, recv_buf_size, conn_create, conn_free,
}

-- What `send` returns: the text is sent, it would block, or it fails.
pub data SendResult : Type 0 where
  sent again failed : SendResult

-- The globals of the worker, and the descriptors that are closed.
pub record Net : Type 0 where
  pub connections : List Slot
  pub active_read_fds : List ℕ
  pub active_write_fds : List ℕ
  pub closed : List ℕ
  pub max_fd : ℕ
  pub buf : Bytes

-- `select` gets the two sets and the closed descriptors; it gives the descriptors that are ready, or
-- `none` for -1. `recv` gives the bytes, `none` for -1. `old_state` is what `malloc` leaves in a
-- new connection.
pub record Round : Type 0 where
  pub listener : ℕ
  pub select : List ℕ → List ℕ → List ℕ → Option (List ℕ × List ℕ)
  pub accept : Option ℕ
  pub recv : ℕ → Option Bytes
  pub send : ℕ → SendResult
  pub old_state : ServerState
  pub now : Timeval

unfoldable pub is_set : ℕ → List ℕ → Bool
is_set fd [] = false
is_set fd (x ∷ fds) = let rest = is_set fd fds in if fd == x then true else rest

unfoldable pub fd_clr : ℕ → List ℕ → List ℕ
fd_clr fd [] = []
fd_clr fd (x ∷ fds) = let rest = fd_clr fd fds in if fd == x then rest else x ∷ rest

-- The C string in a buffer, and the buffer after `memset(buf, 0, strlen(buf))`.
abbrev pub c_str : Bytes → Bytes
c_str [] = []
c_str (zero ∷ bs) = []
c_str (suc c ∷ bs) = suc c ∷ c_str bs

abbrev wipe : Bytes → Bytes
wipe [] = []
wipe (zero ∷ bs) = zero ∷ bs
wipe (suc c ∷ bs) = zero ∷ wipe bs

-- What `recv` leaves in the buffer: nothing changes where it fails.
abbrev pub stored : Option Bytes → Bytes → Bytes
stored none buf = buf
stored (some bytes) buf = bytes ++ drop (length bytes) buf

-- The entry of the table; past its end nothing is read.
abbrev pub slot_at : Net → ℕ → Slot
slot_at net i = elim (get_elem? net.connections i) [ none ↦ null | some slot ↦ slot ]

abbrev pub accept_conn : Round → Option ℕ → Net → Run Net
accept_conn round none net = ok net
accept_conn round (some fd) net = do
  require (ltb fd (length net.connections)) overrun
  ok (record net {
    connections = set net.connections fd (used (conn_create init round.old_state round.now));
    active_read_fds = fd ∷ net.active_read_fds;
    closed = fd_clr fd net.closed;
    max_fd = if ltb net.max_fd fd then fd else net.max_fd;
  })

abbrev pub close_if_ended : ℕ → Option Bytes → Net → Net
close_if_ended i (some []) net = record net { closed = i ∷ net.closed }
close_if_ended i _ net = net

abbrev pub hear_into : ℕ → Net → Slot → Run Net
hear_into i net null = fault null_pointer
hear_into i net freed = fault dangling_pointer
hear_into i net (used conn) = do
  text ← strcpy recv_buf_size (c_str net.buf)
  ok (record net {
    connections = set net.connections i (used (record conn { recv_buf = text }));
    buf = wipe net.buf;
  })

-- A socket with something to read. `nbytes` is unsigned, so that -1 is not `<= 0`; `FD_CLR` is on the
-- copy of the set that is not read again.
unfoldable pub hear_socket : Round → ℕ → Net → Run Net
unfolding conn_create fd_clr
hear_socket round i net =
    if i == round.listener
    then accept_conn round round.accept net
    else (let heard =
          close_if_ended i (round.recv i) (record net { buf = stored (round.recv i) net.buf }) in
        hear_into i heard (slot_at heard i))

abbrev pub write_more : SendResult → ℕ → Net → Net
write_more sent i net = record net {
  active_write_fds = fd_clr i net.active_write_fds;
  active_read_fds = i ∷ net.active_read_fds;
}
write_more _ i net = net

abbrev pub write_socket : Round → ℕ → Net → Slot → Run Net
write_socket round i net null = ok net
write_socket round i net freed = fault dangling_pointer
write_socket round i net (used conn) = ok (write_more (round.send i) i net)

-- The first loop, over `n` descriptors from `i` on.
unfoldable pub hear_all : Round → List ℕ → List ℕ → ℕ → ℕ → Net → Run Net
unfolding is_set hear_socket
hear_all round read_fds write_fds zero i net = ok net
hear_all round read_fds write_fds (suc n) i net =
    (if is_set i read_fds
      then hear_socket round i net
      else (if is_set i write_fds then write_socket round i net (slot_at net i) else ok net))
    >>= hear_all round read_fds write_fds n (suc i)

abbrev pub is_disconnected : ServerState → Bool
is_disconnected disconnected = true
is_disconnected _ = false

abbrev pub reply_sets : SendResult → ℕ → Net → Net
reply_sets again i net = record net {
  active_read_fds = fd_clr i net.active_read_fds;
  active_write_fds = i ∷ net.active_write_fds;
}
reply_sets _ i net = net

abbrev pub send_reply : Round → ℕ → Bytes → Net → Net
send_reply round i [] net = net
send_reply round i (c ∷ s) net = reply_sets (round.send i) i net

-- The entry of the table is not reset after `conn_free`.
abbrev pub answer_slot : Round → ℕ → Net → Slot → Run Net
answer_slot round i net null = ok net
answer_slot round i net freed = fault dangling_pointer
answer_slot round i net (used conn) =
    let told = send_reply round i conn.send_buf net in
    if is_disconnected conn.state
    then (conn_free (used conn) >>= λ slot. ok (record told {
      connections = set net.connections i slot;
      active_read_fds = fd_clr i told.active_read_fds;
      active_write_fds = fd_clr i told.active_write_fds;
      closed = i ∷ told.closed;
    }))
    else ok
        (record told { connections = set net.connections i (used (record conn { send_buf = [] })) })

-- The second loop.
unfoldable pub answer_all : Round → ℕ → ℕ → Net → Run Net
unfolding fd_clr conn_free
answer_all round zero i net = ok net
answer_all round (suc n) i net =
    answer_slot round i net (slot_at net i) >>= answer_all round n (suc i)

-- A descriptor that is accepted meanwhile is in neither set, so that the first loop need not go on
-- to it.
unfoldable pub conn_update : Round → Net → Run (ℤ × Net)
unfolding hear_all answer_all
conn_update round net = elim (round.select net.active_read_fds net.active_write_fds net.closed) [
  | none ↦ ok (negsuc 0, net)
  | some ready ↦ hear_all round ready.0 ready.1 (suc net.max_fd) 0 net >>= λ heard.
      (answer_all round (suc heard.max_fd) 0 heard >>= λ answered. ok (pos 0, answered))
]
