-- ===== src/Server/Loop/Ended.antt =====
-- A session that has ended, in the loop of a worker: `conn_update` of smtp_proj/server/src/conn.c and
-- then protocol_update of smtp_proj/server/src/protocol.c.
use pvs_course_project.Base.{
  ℕ, zero, suc, ◌+◌, ◌≤◌, ◌<◌, ◌≡◌, refl, ◌≢◌, ◌∙◌, sym, inl, inr, List, [], ◌∷◌, Option, some, ok,
  >>=-eq-ok, get_elem?, get_elem?-set_self, get_elem?-set_ne, arith, ltb, Bool-cases,
}
use mathlib.Core.Path.{subst}
use pvs_course_project.Server.Fsm.{ServerState, ServerEvent, disconnected}
use pvs_course_project.Server.Pattern.{Pcre, Patterns}
use pvs_course_project.Server.Maildir.{Disk}
use pvs_course_project.Server.Conn.{Conn, Slot, null, freed, used, conn_free}
use pvs_course_project.Server.Update.{Tick, update_conn, protocol_update}
use pvs_course_project.Server.Loop.Kept.{below_length}
use pvs_course_project.Server.Loop.{
  SendResult, sent, again, failed, Net, Round, reply_sets, slot_at, answer_slot, answer_all,
}

reply_sets-connections :
    (r : SendResult) (i : ℕ) (net : Net) → (reply_sets r i net).connections ≡ net.connections
reply_sets-connections sent i net = refl
reply_sets-connections again i net = refl
reply_sets-connections failed i net = refl

-- A step of the second loop changes no entry of the table but its own.
answer_slot_other :
    (round : Round) (i j : ℕ) (net next : Net) (slot : Slot)
    → i ≢ j
    → answer_slot round i net slot ≡ ok next
    → get_elem? next.connections j ≡ get_elem? net.connections j
unfolding conn_free
answer_slot_other round i j net next null ne h = ground arith
answer_slot_other round i j net next freed ne h = ground arith
answer_slot_other round i j net next (used conn) ne h = ground (
  arith,
  get_elem?-set_ne net.connections {i = i} {j = j} freed ne,
  get_elem?-set_ne net.connections {i = i} {j = j} (used (record conn { send_buf = [] })) ne,
)

answer_slot_ended :
    (round : Round) (i : ℕ) (net next : Net) (conn : Conn)
    → conn.state ≡ disconnected
    → get_elem? net.connections i ≡ some (used conn)
    → answer_slot round i net (slot_at net i) ≡ ok next
    → get_elem? next.connections i ≡ some freed
unfolding conn_free
answer_slot_ended round i net next conn ended e h = ground (
  arith,
  get_elem?-set_self net.connections i freed (below_length net.connections i (used conn) e),
)

answer_all_other :
    (round : Round) (n i j : ℕ) (net after : Net)
    → j < i
    → answer_all round n i net ≡ ok after
    → get_elem? after.connections j ≡ get_elem? net.connections j
unfolding answer_all
answer_all_other round zero i j net after less h = ground arith
answer_all_other round (suc n) i j net after less h =
    let (next, first, others) =
      >>=-eq-ok (answer_slot round i net (slot_at net i)) (answer_all round n (suc i)) h in
    answer_all_other round n (suc i) j next after (omega (arith, less)) others
    ∙ answer_slot_other round i j net next (slot_at net i) (λ e. ground arith) first

answer_all_ended :
    (round : Round) (n i j : ℕ) (net after : Net) (conn : Conn)
    → conn.state ≡ disconnected
    → get_elem? net.connections j ≡ some (used conn)
    → i ≤ j
    → j < i + n
    → answer_all round n i net ≡ ok after
    → get_elem? after.connections j ≡ some freed
unfolding answer_all
answer_all_ended round zero i j net after conn ended e le less h = absurd (omega (arith, le, less))
answer_all_ended round (suc n) i j net after conn ended e le less h =
    let (next, first, others) =
      >>=-eq-ok (answer_slot round i net (slot_at net i)) (answer_all round n (suc i)) h in
    elim (Bool-cases (ltb i j)) [
      | inl before ↦
          answer_all_ended round n (suc i) j next after conn ended
            (answer_slot_other round i j net next (slot_at net i) (λ same. ground arith) first ∙ e)
            (ground arith) (omega (arith, less)) others
      | inr here ↦
          let same : j ≡ i = ground (arith, le) in
          let at_i = subst (λ k. get_elem? net.connections k ≡ some (used conn)) same e in
          subst (λ k. get_elem? after.connections k ≡ some freed) (sym same)
            (answer_all_other round n (suc i) i next after (omega arith) others
              ∙ answer_slot_ended round i net next conn ended at_i first)
    ]

-- protocol_update does not return where an entry of the table has been freed.
freed_lem :
    (server_step : ServerState → ServerEvent → Option ServerState) (pcre : Pcre)
    (patterns : Patterns) (ticks : ℕ → Tick) (i j : ℕ) (slots : List Slot) (disk : Disk)
    (result : List Slot × Disk)
    → get_elem? slots j ≡ some freed
    → protocol_update server_step pcre patterns ticks i slots disk ≢ ok result
unfolding protocol_update
freed_lem server_step pcre patterns ticks i j [] disk result e h = ground arith
freed_lem server_step pcre patterns ticks i j (freed ∷ slots) disk result e h = ground arith
freed_lem server_step pcre patterns ticks i zero (null ∷ slots) disk result e h = ground arith
freed_lem server_step pcre patterns ticks i zero (used conn ∷ slots) disk result e h = ground arith
freed_lem server_step pcre patterns ticks i (suc j) (null ∷ slots) disk result e h =
    let (others, run, _) =
      >>=-eq-ok (protocol_update server_step pcre patterns ticks (suc i) slots disk) _ h in
    freed_lem server_step pcre patterns ticks (suc i) j slots disk others e run
freed_lem server_step pcre patterns ticks i (suc j) (used conn ∷ slots) disk result e h =
    let ((next, written), _, k) =
      >>=-eq-ok (update_conn server_step pcre patterns (ticks i) conn disk) _ h in
    let (others, run, _) =
      >>=-eq-ok (protocol_update server_step pcre patterns ticks (suc i) slots written) _ k in
    freed_lem server_step pcre patterns ticks (suc i) j slots written others e run

-- When a session has ended, by QUIT or by the timeout, the second loop of conn_update frees its
-- connection and leaves it in the table, and the call of protocol_update that follows never returns:
-- it meets the freed connection, if nothing stops it before.
pub ended_session_freed :
    (server_step : ServerState → ServerEvent → Option ServerState) (pcre : Pcre)
    (patterns : Patterns) (ticks : ℕ → Tick) (disk : Disk) (result : List Slot × Disk)
    (round : Round) (net after : Net) (j : ℕ) (conn : Conn)
    → get_elem? net.connections j ≡ some (used conn)
    → conn.state ≡ disconnected
    → j ≤ net.max_fd
    → answer_all round (suc net.max_fd) 0 net ≡ ok after
    → protocol_update server_step pcre patterns ticks 0 after.connections disk ≢ ok result
ended_session_freed server_step pcre patterns ticks disk result round net after j conn e ended le
      h =
    freed_lem server_step pcre patterns ticks 0 j after.connections disk result (
      answer_all_ended round (suc net.max_fd) 0 j net after conn ended e (omega arith)
        (omega (arith, le)) h)
