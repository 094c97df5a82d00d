-- ===== src/Tests/Loop.antt =====
-- Rounds of the loop of smtp_proj/server/src/conn.c.
use pvs_course_project.Base.{
  ◌≡◌, ◌≢◌, refl, ℕ, List, [], ◌∷◌, some, none, Bool, true, false, ◌||◌, codes, ok, Returns, arith,
  if◌then◌else◌, ◌==◌, Bool-cases, inl, inr,
}
use mathlib.Core.Path.{subst}
use pvs_course_project.Base.Int.{pos, negsuc}
use pvs_course_project.Server.Fsm.{
  init, expect_mail, disconnected, table_step, table_step-IsAutoFsm,
}
use pvs_course_project.Server.Pattern.{Pcre, Patterns}
use pvs_course_project.Server.Letter.{wild}
use pvs_course_project.Server.Maildir.{Disk, Host}
use pvs_course_project.Server.Conn.{Conn, Slot, null, freed, used}
use pvs_course_project.Server.Update.{Tick, protocol_update}
use pvs_course_project.Server.Loop.{sent, failed, Net, Round, is_set, answer_all, conn_update}
use pvs_course_project.Server.Loop.Closed.{IsSelect, rounds, closed_connection_stalls}
use pvs_course_project.Server.Loop.Valid.{NetIsValid}
use pvs_course_project.Server.Worker.{worker_loop, worker_loop-IsValid}
use pvs_course_project.Server.Update.Valid.{IsValid}
use pvs_course_project.Server.Loop.Ended.{ended_session_freed}

overlaps : List ℕ → List ℕ → Bool
unfolding is_set
overlaps [] closed = false
overlaps (x ∷ reads) closed = is_set x closed || overlaps reads closed

or_true : (a : Bool) {b : Bool} → b ≡ true → (a || b) ≡ true
or_true true h = refl
or_true false h = h

overlaps_lem :
    (fd : ℕ) (reads closed : List ℕ)
    → is_set fd reads ≡ true
    → is_set fd closed ≡ true
    → overlaps reads closed ≡ true
unfolding overlaps is_set
overlaps_lem fd [] closed h k = ground arith
overlaps_lem fd (x ∷ reads) closed h k = elim (Bool-cases (fd == x)) [
  | inl here ↦
      let same : fd ≡ x = ground arith in
      let shut : is_set x closed ≡ true = subst (λ y. is_set y closed ≡ true) same k in
      ground (arith, shut)
  | inr later ↦ or_true (is_set x closed) (overlaps_lem fd reads closed (rw later at h) k)
]

-- `select` fails for a closed descriptor, and otherwise descriptor 1 has something to read.
abbrev round : Round
round = record {
  listener = 0;
  select = λ reads writes closed. if overlaps reads closed then none else some (1 ∷ [], []);
  accept = none;
  recv = λ fd. some [];
  send = λ fd. sent;
  old_state = init;
  now = record { tv_sec = 1; tv_usec = 0 };
}

round-IsSelect : IsSelect round
round-IsSelect fd reads writes closed h k = rw (overlaps_lem fd reads closed h k) refl

abbrev conn : Conn
conn = record {
  send_buf = [];
  recv_buf = [];
  state = expect_mail;
  old_state = init;
  letter = wild;
  watch = record { tv_sec = 1; tv_usec = 0 };
}

abbrev net : Net
net = record {
  connections = null ∷ used conn ∷ [];
  active_read_fds = 0 ∷ 1 ∷ [];
  active_write_fds = [];
  closed = [];
  max_fd = 1;
  buf = [];
}

abbrev stalled : Net
stalled = record net { closed = 1 ∷ [] }

-- The round in which the client of 1 has closed its connection.
abbrev closing : Round
closing = record round { send = λ fd. failed }

closing_run : conn_update closing net ≡ ok (pos 0, stalled)
unfolding conn_update overlaps is_set
closing_run = refl

ready_run : closing.select (0 ∷ 1 ∷ []) [] [] ≡ some (1 ∷ [], [])
unfolding overlaps
ready_run = refl

heard_run : is_set 1 (1 ∷ []) ≡ true
unfolding is_set
heard_run = refl

-- The second call of conn_update fails already.
second_round_run : conn_update round stalled ≡ ok (negsuc 0, stalled)
unfolding conn_update overlaps is_set
second_round_run = refl

active_run : is_set 1 (0 ∷ 1 ∷ []) ≡ true
unfolding is_set
active_run = refl

-- Two rounds, after which protocol_update leaves these tables.
abbrev later : List (Round × List Slot)
later =
    (round, null ∷ used conn ∷ [])
    ∷ (round, null ∷ used (record conn { state = disconnected }) ∷ [])
    ∷ []

closed_connection_stalls_example :
    rounds later stalled
    ≡ ok (record stalled { connections = null ∷ used (record conn { state = disconnected }) ∷ [] })
closed_connection_stalls_example =
    closed_connection_stalls closing 1 conn (1 ∷ []) [] net stalled (pos 0) later refl (λ e. cc e)
      (omega arith) active_run refl refl ready_run heard_run refl refl closing_run
      (round-IsSelect, (round-IsSelect, tt))

abbrev pcre : Pcre
pcre = record { compiles = λ re. true; exec = λ re buf. none }

abbrev patterns : Patterns
patterns type = none

abbrev host : Host
host = record {
  maildir = codes "/m";
  mkdir = λ dir. true;
  fopen = λ path. true;
  pid = 7;
  now = record { tv_sec = 1; tv_usec = 0 };
}

abbrev tick : Tick
tick = record {
  host = host;
  started = record { tv_sec = 1; tv_usec = 0 };
  watched = record { tv_sec = 2; tv_usec = 0 };
}

abbrev disk : Disk
disk = record { dirs = []; files = [] }

-- A session that QUIT has ended.
abbrev quitting : Net
quitting = record net {
  connections =
      null
      ∷ used (record conn { state = disconnected; send_buf = codes "221 Closing connection\r\n" })
      ∷ [];
}

abbrev ended : Net
ended = record quitting {
  connections = null ∷ freed ∷ [];
  active_read_fds = 0 ∷ [];
  closed = 1 ∷ [];
}

answered_run : answer_all round 2 0 quitting ≡ ok ended
unfolding answer_all
answered_run = refl

ended_session_freed_example :
    protocol_update table_step pcre patterns (λ i. tick) 0 (null ∷ freed ∷ []) disk
    ≢ ok (null ∷ freed ∷ [], disk)
ended_session_freed_example =
    ended_session_freed table_step pcre patterns (λ i. tick) disk (null ∷ freed ∷ [], disk) round
      quitting ended 1
      (record conn { state = disconnected; send_buf = codes "221 Closing connection\r\n" }) refl
      refl (omega arith) answered_run

conn-IsValid : IsValid conn
conn-IsValid = record {
  waits = refl;
  letter_live = λ h. absurd (cc h);
  letter_fits = tt;
  reply_fits = omega arith;
}

worker_loop-IsValid_example :
    Returns
      (λ p. NetIsValid p.0)
      (worker_loop table_step pcre patterns
        ((round, λ i. tick) ∷ (round, λ i. tick) ∷ [])
        (net, disk))
worker_loop-IsValid_example =
    worker_loop-IsValid table_step table_step-IsAutoFsm pcre patterns
      ((round, λ i. tick) ∷ (round, λ i. tick) ∷ []) net disk (tt, (conn-IsValid, tt))
