-- ===== src/Server/Loop/Told.antt =====
-- A socket whose client has closed its connection, through the second loop of `conn_update` of
-- smtp_proj/server/src/conn.c.
use pvs_course_project.Base.{
  ℕ, zero, suc, ◌≡◌, refl, ◌≢◌, inl, inr, [], ◌∷◌, Bytes, ok, ok_inj, >>=-eq-ok, get_elem?-set_self,
  get_elem?-set_ne, arith, ◌==◌, ==_self, Bool-cases,
}
use mathlib.Core.Path.{subst}
use pvs_course_project.Server.Conn.{Slot, null, freed, used, conn_free}
use pvs_course_project.Server.Loop.{
  SendResult, sent, again, failed, Net, Round, slot_at, is_disconnected, reply_sets, send_reply,
  answer_slot, answer_all,
}
use pvs_course_project.Server.Loop.Sets.{is_set-cons}
use pvs_course_project.Server.Loop.Kept.{
  IsStalled, Keeps, Keeps-IsStalled, is_set_cleared, below_length,
}

send_reply-Keeps :
    (round : Round) (i j : ℕ) (text : Bytes) (net : Net)
    → j ≢ i
    → Keeps i net (send_reply round j text net)
send_reply-Keeps round i j [] net ne = (λ r. r, λ shut. shut, refl)
send_reply-Keeps round i j (c ∷ s) net ne = told (round.send j)
  where
    told : (r : SendResult) → Keeps i net (reply_sets r j net)
    told sent = (λ r. r, λ shut. shut, refl)
    told again = (λ r. is_set_cleared i j net.active_read_fds ne r, λ shut. shut, refl)
    told failed = (λ r. r, λ shut. shut, refl)

-- The reply to the socket that is closed fails.
send_reply_failed :
    (round : Round) (i : ℕ) (text : Bytes) (net : Net)
    → round.send i ≡ failed
    → send_reply round i text net ≡ net
send_reply_failed round i [] net e = refl
send_reply_failed round i (c ∷ s) net e = rw e refl

send_reply-connections :
    (round : Round) (j : ℕ) (text : Bytes) (net : Net)
    → (send_reply round j text net).connections ≡ net.connections
send_reply-connections round j [] net = refl
send_reply-connections round j (c ∷ s) net = told (round.send j)
  where
    told : (r : SendResult) → (reply_sets r j net).connections ≡ net.connections
    told sent = refl
    told again = refl
    told failed = refl

answer_slot-Keeps :
    (round : Round) (i j : ℕ) (net next : Net) (slot : Slot)
    → j ≢ i
    → answer_slot round j net slot ≡ ok next
    → Keeps i net next
unfolding conn_free
answer_slot-Keeps round i j net next null ne h =
    subst (Keeps i net) (ok_inj h) (λ r. r, λ shut. shut, refl)
answer_slot-Keeps round i j net next freed ne h = ground arith
answer_slot-Keeps round i j net next (used conn) ne h =
    let told = send_reply round j conn.send_buf net in
    let (reads, shut, _) = send_reply-Keeps round i j conn.send_buf net ne in
    elim (Bool-cases (is_disconnected conn.state)) [
      | inl over ↦ subst (Keeps i net) (ok_inj (rw over at h)) (
        λ r. is_set_cleared i j told.active_read_fds ne (reads r),
        λ k. is_set-cons i j told.closed (shut k),
        get_elem?-set_ne net.connections {i = j} {j = i} freed ne,
      )
      | inr on ↦
          subst (Keeps i net) (ok_inj (rw on at h))
            (reads, shut, get_elem?-set_ne net.connections {i = j} {j = i} _ ne)
    ]

answer_slot-IsStalled :
    (round : Round) (i : ℕ) (net next : Net)
    → round.send i ≡ failed
    → IsStalled i net
    → answer_slot round i net (slot_at net i) ≡ ok next
    → IsStalled i next
unfolding conn_free
answer_slot-IsStalled round i net next fails (closed, (active, conn, found, goes_on)) h =
    let run : answer_slot round i net (used conn) ≡ ok next = rw (slot_at, found) at h in
    let e = rw (goes_on, send_reply_failed round i conn.send_buf net fails) at run in
    subst (IsStalled i) (ok_inj e) (
      closed,
      (
        active,
        record conn { send_buf = [] },
        get_elem?-set_self net.connections i _ (below_length net.connections i (used conn) found),
        goes_on,
      ),
    )

pub answer_all-IsStalled :
    (round : Round) (i n j : ℕ) (net next : Net)
    → round.send i ≡ failed
    → IsStalled i net
    → answer_all round n j net ≡ ok next
    → IsStalled i next
unfolding answer_all
answer_all-IsStalled round i zero j net next fails stalled h =
    subst (IsStalled i) (ok_inj h) stalled
answer_all-IsStalled round i (suc n) j net next fails stalled h =
    let (mid, first, others) = >>=-eq-ok (answer_slot round j net (slot_at net j)) _ h in
    answer_all-IsStalled round i n (suc j) mid next fails
      (elim (Bool-cases (j == i)) [
        | inl here ↦
            let same : j ≡ i = ground arith in
            answer_slot-IsStalled round i net mid fails stalled
              (subst (λ k. answer_slot round k net (slot_at net k) ≡ ok mid) same first)
        | inr apart ↦
            Keeps-IsStalled i net mid
              (answer_slot-Keeps round i j net mid (slot_at net j)
                (λ same. ground (arith, ==_self i)) first)
              stalled
      ])
      others
