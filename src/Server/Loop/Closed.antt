-- ===== src/Server/Loop/Closed.antt =====
-- A client that closes its connection, in `conn_update` of smtp_proj/server/src/conn.c.
use pvs_course_project.Base.{
  ℕ, suc, ◌≤◌, ◌≡◌, ◌≢◌, refl, true, false, List, [], ◌∷◌, none, some, Run, ok, ◌>>=◌, >>=-eq-ok,
  get_elem?, ◌==◌, arith, All,
}
use mathlib.Core.Path.{subst}
use pvs_course_project.Base.Int.{ℤ, negsuc}
use pvs_course_project.Server.Conn.{Conn, Slot, used}
use pvs_course_project.Server.Loop.{
  failed, Net, Round, is_set, is_disconnected, hear_all, answer_all, conn_update,
}
use pvs_course_project.Server.Loop.Kept.{IsStalled, hear_all-IsStalled}
use pvs_course_project.Server.Loop.Told.{answer_all-IsStalled}

-- POSIX: `select` fails with EBADF where a descriptor of a set is not open.
abbrev pub IsSelect : Round → Type 0
IsSelect round =
    (fd : ℕ) (reads writes closed : List ℕ)
    → is_set fd reads ≡ true
    → is_set fd closed ≡ true
    → round.select reads writes closed ≡ none

-- The loop of a worker, which does not read the results of conn_update: each round is followed by a
-- call of protocol_update, which leaves some table of connections and touches nothing else.
unfoldable pub rounds : List (Round × List Slot) → Net → Run Net
rounds [] net = ok net
rounds ((r, table) ∷ rs) net =
    conn_update r net >>= λ (code, next). rounds rs (record next { connections = table })

-- What is left where conn_update does nothing: the last table.
abbrev idle : List (Round × List Slot) → Net → Net
idle [] net = net
idle ((r, table) ∷ rs) net = idle rs (record net { connections = table })

stalled_round :
    (round : Round) (net : Net) (fd : ℕ)
    → IsSelect round
    → is_set fd net.active_read_fds ≡ true
    → is_set fd net.closed ≡ true
    → conn_update round net ≡ ok (negsuc 0, net)
unfolding conn_update
stalled_round round net fd law active closed =
    ground (arith, law fd net.active_read_fds net.active_write_fds net.closed active closed)

stalled_rounds :
    (rs : List (Round × List Slot)) (net : Net) (fd : ℕ)
    → All (λ r. IsSelect r.0) rs
    → is_set fd net.active_read_fds ≡ true
    → is_set fd net.closed ≡ true
    → rounds rs net ≡ ok (idle rs net)
unfolding rounds
stalled_rounds [] net fd laws active closed = refl
stalled_rounds ((r, table) ∷ rs) net fd (law, laws) active closed =
    rw (stalled_round r net fd law active closed)
      (stalled_rounds rs (record net { connections = table }) fd laws active closed)

-- A socket in the set that `select` reads, other than the listener, whose client has closed the
-- connection and whose session has not ended: the call of conn_update that reads the end of the
-- connection closes the socket and leaves it in the set, through both its loops, if the listener does
-- not give the same descriptor within the call. From then on the worker serves nobody: however many
-- rounds of the loop follow, and whatever protocol_update makes of the table, conn_update changes
-- nothing, since `select` fails, as POSIX says, for a closed descriptor, as `send` to it does.
pub closed_connection_stalls :
    (round : Round) (i : ℕ) (conn : Conn) (reads writes : List ℕ) (net after : Net) (code : ℤ)
    (rs : List (Round × List Slot))
    → (i == round.listener) ≡ false
    → round.accept ≢ some i
    → i ≤ net.max_fd
    → is_set i net.active_read_fds ≡ true
    → get_elem? net.connections i ≡ some (used conn)
    → is_disconnected conn.state ≡ false
    → round.select net.active_read_fds net.active_write_fds net.closed ≡ some (reads, writes)
    → is_set i reads ≡ true
    → round.recv i ≡ some []
    → round.send i ≡ failed
    → conn_update round net ≡ ok (code, after)
    → All (λ r. IsSelect r.0) rs
    → rounds rs after ≡ ok (idle rs after)
unfolding conn_update
closed_connection_stalls round i conn reads writes net after code rs other new below active found
      goes_on selected ready ended fails run laws =
    let (heard, first, rest) =
      >>=-eq-ok (hear_all round reads writes (suc net.max_fd) 0 net) _
        (rw (conn_update, selected) at run) in
    let (answered, second, end) = >>=-eq-ok (answer_all round (suc heard.max_fd) 0 heard) _ rest in
    let stalled : IsStalled i answered =
      answer_all-IsStalled round i (suc heard.max_fd) 0 heard answered fails
        (hear_all-IsStalled round reads writes i new (suc net.max_fd) 0 net heard ready other ended
          (omega arith) (omega (arith, below)) (active, conn, found, goes_on) first)
        second in
    let same : answered ≡ after = cc end in
    let end_state = subst (IsStalled i) same stalled in
    stalled_rounds rs after i laws end_state.1.0 end_state.0
