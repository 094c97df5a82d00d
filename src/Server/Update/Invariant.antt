-- ===== src/Server/Update/Invariant.antt =====
-- The parts of `protocol_update` (smtp_proj/server/src/protocol.c) keep the invariant of the
-- connections.
use pvs_course_project.Base.{
  ℕ, suc, ◌≡◌, refl, List, [], ◌∷◌, Option, arith, ok, Returns, Returns-bind, All, ◌>>=◌,
  if◌then◌else◌, Bool-cases, inl, inr,
}
use pvs_course_project.Base.Int.{ltb_ℤ}
use pvs_course_project.Server.Stopwatch.{stopwatch_watch}
use pvs_course_project.Server.Fsm.{
  disconnected, ServerState, ServerEvent, IsAutoFsm, IsAutoFsm-table_step, table_step,
}
use pvs_course_project.Server.Pattern.{Pcre, Patterns}
use pvs_course_project.Server.Maildir.{Disk}
use pvs_course_project.Server.Conn.{Conn, Slot, null, freed, used}
use pvs_course_project.Server.Update.{
  Tick, serve_text, receive, greet, expire, update_conn, protocol_update,
}
use pvs_course_project.Server.Protocol.{say, response_421_timeout, conn_timeout, classify, is_empty}
use pvs_course_project.Server.Update.Valid.{IsValid, Keeps}
use pvs_course_project.Server.Update.Served.{serve_text-Keeps}

receive-Keeps :
    (pcre : Pcre) (patterns : Patterns) (tick : Tick) (conn : Conn) (disk : Disk)
    → IsValid conn
    → Keeps (receive table_step pcre patterns tick conn disk)
receive-Keeps pcre patterns tick conn disk v = ground (
  arith,
  receive_lem,
  serve_text-Keeps pcre patterns tick.host conn disk (classify pcre patterns conn.recv_buf).1 v
      (classify pcre patterns conn.recv_buf).0,
)
  where
    receive_lem : receive table_step pcre patterns tick conn disk ≡ (
        if is_empty conn.recv_buf
        then ok (conn, disk)
        else serve_text table_step pcre patterns tick.host conn disk
            (classify pcre patterns conn.recv_buf)
          >>= λ r. ok (record (r.0) { recv_buf = []; watch = tick.started }, r.1))
    receive_lem = unfold receive in refl

greet-IsValid : (conn : Conn) → IsValid conn → Returns IsValid (greet table_step conn)
unfolding greet
greet-IsValid conn v = ground arith

expire-IsValid : (tick : Tick) (conn : Conn) → IsValid conn → IsValid (expire tick conn)
expire-IsValid tick conn v =
    elim (Bool-cases (ltb_ℤ conn_timeout (stopwatch_watch conn.watch tick.watched))) [
      | inl h ↦ rw (expire_lem, h) (ground arith)
      | inr h ↦ rw (expire_lem, h) v
    ]
  where
    expire_lem : expire tick conn ≡ (
        if ltb_ℤ conn_timeout (stopwatch_watch conn.watch tick.watched)
        then say response_421_timeout (record conn { old_state = conn.state; state = disconnected })
        else conn)
    expire_lem = unfold expire in refl

update_conn-Keeps :
    (pcre : Pcre) (patterns : Patterns) (tick : Tick) (conn : Conn) (disk : Disk)
    → IsValid conn
    → Keeps (update_conn table_step pcre patterns tick conn disk)
update_conn-Keeps pcre patterns tick conn disk v = rw update_lem (
    Returns-bind (λ r. IsValid r.0) (λ r. IsValid r.0)
      (receive table_step pcre patterns tick conn disk)
      (λ r. greet table_step r.0 >>= λ greeted. ok (expire tick greeted, r.1))
      (receive-Keeps pcre patterns tick conn disk v)
      (λ r h.
        Returns-bind IsValid (λ s. IsValid s.0) (greet table_step r.0)
          (λ greeted. ok (expire tick greeted, r.1)) (greet-IsValid r.0 h)
          (λ greeted k. expire-IsValid tick greeted k)))
  where
    update_lem : update_conn table_step pcre patterns tick conn disk ≡ (
        receive table_step pcre patterns tick conn disk >>= λ r.
        greet table_step r.0 >>= λ greeted. ok (expire tick greeted, r.1))
    update_lem = unfold update_conn in refl

-- A connection in the table keeps the invariant; the other entries ask for nothing.
abbrev pub SlotIsValid : Slot → Type 0
SlotIsValid (used conn) = IsValid conn
SlotIsValid _ = Unit

abbrev pub TableIsValid : List Slot × Disk → Type 0
TableIsValid r = All SlotIsValid r.0

table-Keeps :
    (pcre : Pcre) (patterns : Patterns) (ticks : ℕ → Tick) (i : ℕ) (slots : List Slot) (disk : Disk)
    → All SlotIsValid slots
    → Returns TableIsValid (protocol_update table_step pcre patterns ticks i slots disk)
table-Keeps pcre patterns ticks i [] disk v = unfold protocol_update in tt
table-Keeps pcre patterns ticks i (null ∷ slots) disk v =
    null_step (table-Keeps pcre patterns ticks (suc i) slots disk v.1)
  where
    null_step :
        Returns TableIsValid (protocol_update table_step pcre patterns ticks (suc i) slots disk)
        → Returns TableIsValid
            (protocol_update table_step pcre patterns ticks i (null ∷ slots) disk)
    null_step h =
        unfold protocol_update in
        Returns-bind TableIsValid TableIsValid
          (protocol_update table_step pcre patterns ticks (suc i) slots disk)
          (λ r. ok (null ∷ r.0, r.1)) h (λ r k. (tt, k))
table-Keeps pcre patterns ticks i (freed ∷ slots) disk v = unfold protocol_update in tt
table-Keeps pcre patterns ticks i (used conn ∷ slots) disk v =
    used_step (λ first. table-Keeps pcre patterns ticks (suc i) slots first v.1)
  where
    used_step :
        ((first : Disk)
          → Returns TableIsValid
              (protocol_update table_step pcre patterns ticks (suc i) slots first))
        → Returns TableIsValid
            (protocol_update table_step pcre patterns ticks i (used conn ∷ slots) disk)
    used_step h =
        unfold protocol_update in
        Returns-bind (λ r. IsValid r.0) TableIsValid
          (update_conn table_step pcre patterns (ticks i) conn disk)
          (λ r. protocol_update table_step pcre patterns ticks (suc i) slots r.1 >>= λ o.
            ok (used r.0 ∷ o.0, o.1))
          (update_conn-Keeps pcre patterns (ticks i) conn disk v.0)
          (λ r k.
            Returns-bind TableIsValid TableIsValid
              (protocol_update table_step pcre patterns ticks (suc i) slots r.1)
              (λ o. ok (used r.0 ∷ o.0, o.1)) (h r.1) (λ o l. (k, l)))

-- Whatever the connections receive, and whatever the library for patterns, the host and the clock
-- give, a call of protocol_update that returns leaves every connection of the table with the
-- invariant, if each had it before: it waits in a state between two commands, its letter is live
-- wherever a mail has been begun, the texts of the letter lie in their blocks, and the reply in
-- its buffer.
pub protocol_update-IsValid :
    (server_step : ServerState → ServerEvent → Option ServerState)
    → IsAutoFsm server_step
    → (pcre : Pcre) (patterns : Patterns) (ticks : ℕ → Tick) (i : ℕ) (slots : List Slot)
      (disk : Disk)
    → All SlotIsValid slots
    → Returns TableIsValid (protocol_update server_step pcre patterns ticks i slots disk)
protocol_update-IsValid server_step law pcre patterns ticks i slots disk v =
    rw (IsAutoFsm-table_step server_step law) (table-Keeps pcre patterns ticks i slots disk v)
