-- ===== src/Server/Loop/Valid.antt =====
-- `conn_update` of smtp_proj/server/src/conn.c keeps the invariant of the connections.
use pvs_course_project.Base.{
  ℕ, zero, suc, List, [], ◌∷◌, Bytes, Option, none, some, length, ok, Returns, Returns-bind,
  Returns-any, ltb, strcpy, All, All-set, All-get, get_elem?, Option-cases, Bool-cases, inl, inr,
  ◌==◌, arith, if◌then◌else◌,
}
use pvs_course_project.Server.Fsm.{ServerState, init}
use pvs_course_project.Server.Stopwatch.{Timeval}
use pvs_course_project.Server.Conn.{Slot, null, freed, used, conn_create, conn_free, recv_buf_size}
use pvs_course_project.Server.Update.Valid.{IsValid}
use pvs_course_project.Server.Update.Invariant.{SlotIsValid}
use pvs_course_project.Server.Loop.{
  Net, Round, SendResult, sent, again, failed, slot_at, is_set, c_str, accept_conn, hear_into,
  hear_socket, close_if_ended, stored, write_more, write_socket, hear_all, reply_sets,
  is_disconnected, answer_slot, answer_all, conn_update,
}

abbrev pub NetIsValid : Net → Type 0
NetIsValid net = All SlotIsValid net.connections

slot_at-IsValid : (net : Net) (i : ℕ) → NetIsValid net → SlotIsValid (slot_at net i)
slot_at-IsValid net i v = elim (Option-cases (get_elem? net.connections i)) [
  | inl e ↦ rw (e, SlotIsValid) tt
  | inr (slot, e) ↦ rw (e, SlotIsValid) (All-get SlotIsValid net.connections i slot v e)
]

fresh-IsValid : (old_state : ServerState) (now : Timeval) → IsValid (conn_create init old_state now)
unfolding conn_create
fresh-IsValid old_state now = ground arith

accept_conn-IsValid :
    (round : Round) (fd : Option ℕ) (net : Net)
    → NetIsValid net
    → Returns NetIsValid (accept_conn round fd net)
accept_conn-IsValid round none net v = v
accept_conn-IsValid round (some fd) net v = elim (Bool-cases (ltb fd (length net.connections))) [
  | inl h ↦ rw h (
      All-set SlotIsValid net.connections fd (used (conn_create init round.old_state round.now)) v
        (fresh-IsValid round.old_state round.now))
  | inr h ↦ rw h tt
]

hear_into-IsValid :
    (i : ℕ) (net : Net) (slot : Slot)
    → NetIsValid net
    → SlotIsValid slot
    → Returns NetIsValid (hear_into i net slot)
hear_into-IsValid i net null v w = tt
hear_into-IsValid i net freed v w = tt
hear_into-IsValid i net (used conn) v w =
    Returns-bind (λ _. Unit {0}) NetIsValid (strcpy recv_buf_size (c_str net.buf)) _
      (Returns-any (strcpy recv_buf_size (c_str net.buf)))
      (λ text _.
        All-set SlotIsValid net.connections i (used (record conn { recv_buf = text })) v
          (ground arith))

close-IsValid :
    (i : ℕ) (heard : Option Bytes) (net : Net)
    → NetIsValid net
    → NetIsValid (close_if_ended i heard net)
close-IsValid i none net v = v
close-IsValid i (some []) net v = v
close-IsValid i (some (b ∷ bs)) net v = v

hear_socket-IsValid :
    (round : Round) (i : ℕ) (net : Net)
    → NetIsValid net
    → Returns NetIsValid (hear_socket round i net)
unfolding hear_socket
hear_socket-IsValid round i net v =
    let heard =
      close_if_ended i (round.recv i) (record net { buf = stored (round.recv i) net.buf }) in
    let kept =
      close-IsValid i (round.recv i) (record net { buf = stored (round.recv i) net.buf }) v in
    elim (Bool-cases (i == round.listener)) [
      | inl h ↦ rw h (accept_conn-IsValid round round.accept net v)
      | inr h ↦
          rw h (hear_into-IsValid i heard (slot_at heard i) kept (slot_at-IsValid heard i kept))
    ]

write_more-IsValid :
    (r : SendResult) (i : ℕ) (net : Net) → NetIsValid net → NetIsValid (write_more r i net)
write_more-IsValid sent i net v = v
write_more-IsValid again i net v = v
write_more-IsValid failed i net v = v

write_socket-IsValid :
    (round : Round) (i : ℕ) (net : Net) (slot : Slot)
    → NetIsValid net
    → Returns NetIsValid (write_socket round i net slot)
write_socket-IsValid round i net null v = v
write_socket-IsValid round i net freed v = tt
write_socket-IsValid round i net (used conn) v = write_more-IsValid (round.send i) i net v

hear_all-IsValid :
    (round : Round) (reads writes : List ℕ) (n i : ℕ) (net : Net)
    → NetIsValid net
    → Returns NetIsValid (hear_all round reads writes n i net)
unfolding hear_all
hear_all-IsValid round reads writes zero i net v = v
hear_all-IsValid round reads writes (suc n) i net v =
    Returns-bind NetIsValid NetIsValid _ (hear_all round reads writes n (suc i)) one
      (λ next w. hear_all-IsValid round reads writes n (suc i) next w)
  where
    one : Returns NetIsValid (
        if is_set i reads
        then hear_socket round i net
        else (if is_set i writes then write_socket round i net (slot_at net i) else ok net))
    one = elim (Bool-cases (is_set i reads)) [
      | inl h ↦ rw h (hear_socket-IsValid round i net v)
      | inr h ↦ elim (Bool-cases (is_set i writes)) [
        | inl k ↦ rw (h, k) (write_socket-IsValid round i net (slot_at net i) v)
        | inr k ↦ rw (h, k) v
      ]
    ]

reply_sets-IsValid :
    (r : SendResult) (i : ℕ) (net : Net) → NetIsValid net → NetIsValid (reply_sets r i net)
reply_sets-IsValid sent i net v = v
reply_sets-IsValid again i net v = v
reply_sets-IsValid failed i net v = v

answer_slot-IsValid :
    (round : Round) (i : ℕ) (net : Net) (slot : Slot)
    → NetIsValid net
    → SlotIsValid slot
    → Returns NetIsValid (answer_slot round i net slot)
unfolding conn_free
answer_slot-IsValid round i net null v w = v
answer_slot-IsValid round i net freed v w = tt
answer_slot-IsValid round i net (used conn) v w = elim (Bool-cases (is_disconnected conn.state)) [
  | inl h ↦ rw h (All-set SlotIsValid net.connections i freed v tt)
  | inr h ↦ rw h (
      All-set SlotIsValid net.connections i (used (record conn { send_buf = [] })) v (ground arith))
]

answer_all-IsValid :
    (round : Round) (n i : ℕ) (net : Net)
    → NetIsValid net
    → Returns NetIsValid (answer_all round n i net)
unfolding answer_all
answer_all-IsValid round zero i net v = v
answer_all-IsValid round (suc n) i net v =
    Returns-bind NetIsValid NetIsValid (answer_slot round i net (slot_at net i))
      (answer_all round n (suc i))
      (answer_slot-IsValid round i net (slot_at net i) v (slot_at-IsValid net i v))
      (λ next w. answer_all-IsValid round n (suc i) next w)

pub conn_update-IsValid :
    (round : Round) (net : Net)
    → NetIsValid net
    → Returns (λ r. NetIsValid r.1) (conn_update round net)
unfolding conn_update
conn_update-IsValid round net v =
    elim (Option-cases (round.select net.active_read_fds net.active_write_fds net.closed)) [
      | inl e ↦ rw (e, Returns) v
      | inr ((reads, writes), e) ↦
          rw (e, Returns)
            (Returns-bind NetIsValid (λ r. NetIsValid r.1)
              (hear_all round reads writes (suc net.max_fd) 0 net) _
              (hear_all-IsValid round reads writes (suc net.max_fd) 0 net v)
              (λ heard w.
                Returns-bind NetIsValid (λ r. NetIsValid r.1)
                  (answer_all round (suc heard.max_fd) 0 heard) _
                  (answer_all-IsValid round (suc heard.max_fd) 0 heard w) (λ answered u. u)))
    ]
