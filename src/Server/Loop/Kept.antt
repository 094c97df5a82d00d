-- ===== src/Server/Loop/Kept.antt =====
-- A socket whose client has closed its connection, through the first loop of `conn_update` of
-- smtp_proj/server/src/conn.c.
use pvs_course_project.Base.{
  ℕ, zero, suc, ◌+◌, ◌≤◌, ◌<◌, ◌≡◌, refl, ◌≢◌, ◌∙◌, ap, strcpy, require, overrun, inl, inr, true,
  false, List, [], ◌∷◌, Option, none, some, Bytes, Run, ok, ok_inj, >>=-eq-ok, length, get_elem?,
  get_elem?-set_self, get_elem?-set_ne, arith, ltb, ◌==◌, Bool-cases, if◌then◌else◌,
}
use mathlib.Core.Path.{subst}
use pvs_course_project.Server.Conn.{Conn, Slot, null, freed, used, recv_buf_size}
use pvs_course_project.Server.Loop.{
  SendResult, sent, again, failed, Net, Round, is_set, fd_clr, slot_at, stored, c_str,
  close_if_ended, hear_into, hear_socket, accept_conn, write_more, write_socket, hear_all,
  is_disconnected,
}
use pvs_course_project.Server.Loop.Sets.{is_set_self, is_set-cons, is_set-fd_clr}

-- The socket is watched, and its session goes on.
abbrev pub IsActive : ℕ → Net → Type 0
IsActive i net =
    (is_set i net.active_read_fds ≡ true)
    × (conn : Conn) × (get_elem? net.connections i ≡ some (used conn))
    × (is_disconnected conn.state ≡ false)

abbrev pub IsStalled : ℕ → Net → Type 0
IsStalled i net = (is_set i net.closed ≡ true) × IsActive i net

-- What a step for another socket leaves of one.
abbrev pub Keeps : ℕ → Net → Net → Type 0
Keeps i net next =
    (is_set i net.active_read_fds ≡ true → is_set i next.active_read_fds ≡ true)
    × (is_set i net.closed ≡ true → is_set i next.closed ≡ true)
    × (get_elem? next.connections i ≡ get_elem? net.connections i)

Keeps-IsActive : (i : ℕ) (net next : Net) → Keeps i net next → IsActive i net → IsActive i next
Keeps-IsActive i net next (reads, shut, slot) (active, conn, found, goes_on) =
    (reads active, conn, slot ∙ found, goes_on)

pub Keeps-IsStalled :
    (i : ℕ) (net next : Net) → Keeps i net next → IsStalled i net → IsStalled i next
Keeps-IsStalled i net next kept (closed, active) =
    (kept.1 closed, Keeps-IsActive i net next kept active)

pub is_set_cleared :
    (i fd : ℕ) (fds : List ℕ) → fd ≢ i → is_set i fds ≡ true → is_set i (fd_clr fd fds) ≡ true
is_set_cleared i fd fds ne h = ground (arith, is_set-fd_clr i fd fds)

accept_conn-Keeps :
    (round : Round) (fd i : ℕ) (net next : Net)
    → fd ≢ i
    → accept_conn round (some fd) net ≡ ok next
    → Keeps i net next
accept_conn-Keeps round fd i net next ne h =
    let (_, _, e) = >>=-eq-ok (require (ltb fd (length net.connections)) overrun) _ h in
    subst (Keeps i net) (ok_inj e) (
      λ reads. is_set-cons i fd net.active_read_fds reads,
      λ shut. is_set_cleared i fd net.closed ne shut,
      get_elem?-set_ne net.connections {i = fd} {j = i} _ ne,
    )

hear_into-Keeps :
    (i j : ℕ) (net next : Net) (slot : Slot)
    → j ≢ i
    → hear_into j net slot ≡ ok next
    → Keeps i net next
hear_into-Keeps i j net next null ne h = ground arith
hear_into-Keeps i j net next freed ne h = ground arith
hear_into-Keeps i j net next (used conn) ne h =
    let (_, _, e) = >>=-eq-ok (strcpy recv_buf_size (c_str net.buf)) _ h in
    subst (Keeps i net) (ok_inj e)
      (λ reads. reads, λ shut. shut, get_elem?-set_ne net.connections {i = j} {j = i} _ ne)

close_if_ended-Keeps :
    (i j : ℕ) (received : Option Bytes) (net : Net) → Keeps i net (close_if_ended j received net)
close_if_ended-Keeps i j none net = (λ reads. reads, λ shut. shut, refl)
close_if_ended-Keeps i j (some []) net =
    (λ reads. reads, λ shut. is_set-cons i j net.closed shut, refl)
close_if_ended-Keeps i j (some (c ∷ s)) net = (λ reads. reads, λ shut. shut, refl)

Keeps-trans : (i : ℕ) (a b c : Net) → Keeps i a b → Keeps i b c → Keeps i a c
Keeps-trans i a b c (r, s, e) (r', s', e') = (λ h. r' (r h), λ h. s' (s h), e' ∙ e)

hear_socket-Keeps :
    (round : Round) (i j : ℕ) (net next : Net)
    → j ≢ i
    → round.accept ≢ some i
    → hear_socket round j net ≡ ok next
    → Keeps i net next
unfolding hear_socket
hear_socket-Keeps round i j net next ne new h = elim (Bool-cases (j == round.listener)) [
  | inl listens ↦ accepted round.accept new (rw listens at h)
  | inr serves ↦
      let filled = record net { buf = stored (round.recv j) net.buf } in
      let heard = close_if_ended j (round.recv j) filled in
      Keeps-trans i net heard next (close_if_ended-Keeps i j (round.recv j) filled)
        (hear_into-Keeps i j heard next (slot_at heard j) ne (rw serves at h))
]
  where
    accepted : (a : Option ℕ) → a ≢ some i → accept_conn round a net ≡ ok next → Keeps i net next
    accepted none other e = subst (Keeps i net) (ok_inj e) (λ reads. reads, λ shut. shut, refl)
    accepted (some fd) other e =
        accept_conn-Keeps round fd i net next (λ same. other (ap (λ f. some f) same)) e

write_more-Keeps : (r : SendResult) (i j : ℕ) (net : Net) → Keeps i net (write_more r j net)
write_more-Keeps sent i j net =
    (λ reads. is_set-cons i j net.active_read_fds reads, λ shut. shut, refl)
write_more-Keeps again i j net = (λ reads. reads, λ shut. shut, refl)
write_more-Keeps failed i j net = (λ reads. reads, λ shut. shut, refl)

write_socket-Keeps :
    (round : Round) (i j : ℕ) (net next : Net) (slot : Slot)
    → write_socket round j net slot ≡ ok next
    → Keeps i net next
write_socket-Keeps round i j net next null h =
    subst (Keeps i net) (ok_inj h) (λ reads. reads, λ shut. shut, refl)
write_socket-Keeps round i j net next freed h = ground arith
write_socket-Keeps round i j net next (used conn) h =
    subst (Keeps i net) (ok_inj h) (write_more-Keeps (round.send j) i j net)

-- A step of the first loop.
abbrev hear_step : Round → List ℕ → List ℕ → ℕ → Net → Run Net
hear_step round reads writes j net =
    if is_set j reads
    then hear_socket round j net
    else (if is_set j writes then write_socket round j net (slot_at net j) else ok net)

hear_step-Keeps :
    (round : Round) (reads writes : List ℕ) (i j : ℕ) (net next : Net)
    → j ≢ i
    → round.accept ≢ some i
    → hear_step round reads writes j net ≡ ok next
    → Keeps i net next
hear_step-Keeps round reads writes i j net next ne new h = elim (Bool-cases (is_set j reads)) [
  | inl hears ↦ hear_socket-Keeps round i j net next ne new (rw hears at h)
  | inr silent ↦ elim (Bool-cases (is_set j writes)) [
    | inl more ↦ write_socket-Keeps round i j net next (slot_at net j) (rw (silent, more) at h)
    | inr idle ↦ subst (Keeps i net) (ok_inj (rw (silent, idle) at h)) (λ r. r, λ shut. shut, refl)
  ]
]

pub below_length :
    (slots : List Slot) (i : ℕ) (slot : Slot) → get_elem? slots i ≡ some slot → i < length slots
below_length [] i slot h = ground arith
below_length (s ∷ slots) zero slot h = omega arith
below_length (s ∷ slots) (suc i) slot h = omega (arith, below_length slots i slot h)

-- The step that reads the end of the connection.
hear_socket-IsStalled :
    (round : Round) (i : ℕ) (net next : Net)
    → (i == round.listener) ≡ false
    → round.recv i ≡ some []
    → IsActive i net
    → hear_socket round i net ≡ ok next
    → IsStalled i next
unfolding hear_socket
hear_socket-IsStalled round i net next other ended (active, conn, found, goes_on) h =
    let shut = record net { closed = i ∷ net.closed } in
    let run : hear_into i shut (used conn) ≡ ok next = rw (other, ended, slot_at, found) at h in
    let (text, _, e) = >>=-eq-ok (strcpy recv_buf_size (c_str net.buf)) _ run in
    subst (IsStalled i) (ok_inj e) (
      is_set_self i net.closed,
      (
        active,
        record conn { recv_buf = text },
        get_elem?-set_self net.connections i _ (below_length net.connections i (used conn) found),
        goes_on,
      ),
    )

module _ (round : Round) (reads writes : List ℕ) (i : ℕ) (new : round.accept ≢ some i) where
  hear_all_past :
      (n j : ℕ) (net next : Net)
      → i < j
      → hear_all round reads writes n j net ≡ ok next
      → Keeps i net next
  unfolding hear_all
  hear_all_past zero j net next past h = subst (Keeps i net) (ok_inj h) (λ r. r, λ shut. shut, refl)
  hear_all_past (suc n) j net next past h =
      let (mid, first, others) = >>=-eq-ok (hear_step round reads writes j net) _ h in
      Keeps-trans i net mid next
        (hear_step-Keeps round reads writes i j net mid (λ same. ground arith) new first)
        (hear_all_past n (suc j) mid next (omega arith) others)

  -- The first loop, on its way to the socket and behind it.
  pub hear_all-IsStalled :
      (n j : ℕ) (net next : Net)
      → is_set i reads ≡ true
      → (i == round.listener) ≡ false
      → round.recv i ≡ some []
      → j ≤ i
      → i < j + n
      → IsActive i net
      → hear_all round reads writes n j net ≡ ok next
      → IsStalled i next
  unfolding hear_all
  hear_all-IsStalled zero j net next ready other ended le less active h =
      absurd (omega (arith, le, less))
  hear_all-IsStalled (suc n) j net next ready other ended le less active h =
      let (mid, first, others) = >>=-eq-ok (hear_step round reads writes j net) _ h in
      elim (Bool-cases (ltb j i)) [
        | inl before ↦
            hear_all-IsStalled n (suc j) mid next ready other ended (ground arith)
              (omega (arith, less))
              (Keeps-IsActive i net mid
                (hear_step-Keeps round reads writes i j net mid (λ same. ground arith) new first)
                active)
              others
        | inr here ↦
            let same : j ≡ i = ground (arith, le) in
            let step : hear_step round reads writes i net ≡ ok mid =
              subst (λ k. hear_step round reads writes k net ≡ ok mid) same first in
            Keeps-IsStalled i mid next
              (hear_all_past n (suc j) mid next (omega (arith, same)) others)
              (hear_socket-IsStalled round i net mid other ended active (rw ready at step))
      ]
