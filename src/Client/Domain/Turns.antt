-- ===== src/Client/Domain/Turns.antt =====
-- A worker's turns with one server, `handle_write_socket` and then `handle_read_socket` of
-- smtp_proj/client/src/domain_proc.c, as the loop of `child_process_worker_start` calls them.
use pvs_course_project.Base.{
  ◌≡◌, refl, true, false, List, [], ◌∷◌, some, Bytes, Run, ok, ◌>>=◌, if◌then◌else◌, arith,
}
use pvs_course_project.Base.Int.{ℤ, pos}
use pvs_course_project.Client.Fsm.{State, ev_ok, client_fsm_step}
use pvs_course_project.Client.MailList.{Nodes}
use pvs_course_project.Client.Response.{Ending, read_data_from_server, check_server_code}
use pvs_course_project.Client.Requests.{Domain, World, Os, send_msg_to_server}
use pvs_course_project.Client.Domain.{
  Sockets, fd_set, fd_clr, is_body, sent_mail, step_to, after_read, handle_write_socket,
  handle_read_socket,
}

-- What one `recv` after another gives, and how they end.
abbrev pub Received : Type 0
Received = List Bytes × Ending

abbrev Position : Type 0
Position = Domain × World × Sockets

-- Something is written, and then the reply is read.
unfoldable pub turn : Os → Received → Position → Run Position
turn os (chunks, ending) (d, world, s) = handle_write_socket os d world s >>= λ (d1, world1, s1).
    (handle_read_socket chunks ending d1 s1 >>= λ (d2, s2). ok (d2, world1, s2))

unfoldable pub turns : Os → List Received → Position → Run Position
turns os [] p = ok p
turns os (r ∷ rs) p = turn os r p >>= turns os rs

-- The server's reply is read and says that all is well.
abbrev pub IsFine : Received → Type 0
IsFine (chunks, ending) =
    (text : Bytes) × (read_data_from_server chunks ending ≡ ok (some text))
    × (check_server_code (some text) ≡ ok ev_ok)

-- A descriptor with a socket, in a state, with some mails, that has made no attempt before.
abbrev pub ready : ℤ → State → Nodes → Domain → Domain
ready fd st mails d = record d {
  socket_fd = fd;
  state = st;
  mails_list = mails;
  last_attempt_time = pos 0;
}

-- The sets after a write, and after a turn.
abbrev pub written : Domain → Sockets → Sockets
written d s = record s {
  write_fds = fd_clr d.socket_fd s.write_fds;
  read_fds = fd_set d.socket_fd s.read_fds;
}

abbrev after_turn : Domain → Domain → Sockets → Sockets
after_turn d d1 s = after_read d1 (written d s)

pub handle_read_fine :
    (r : Received) (d : Domain) (s : Sockets)
    → IsFine r
    → handle_read_socket r.0 r.1 d s ≡ (
        (if is_body d.state then sent_mail d ev_ok else step_to d ev_ok) >>= λ d1.
        ok (d1, after_read d1 s))
unfolding handle_read_socket
handle_read_fine r d s (text, received, fine) = rw received (rw fine (ground arith))

-- A turn in a state other than SEND_BODY follows the machine.
pub turn_lem :
    (os : Os) (r : Received) (d d1 : Domain) (world world1 : World) (s : Sockets) (next : State)
    → IsFine r
    → send_msg_to_server os d world ≡ ok (pos 0, d1, world1)
    → is_body d1.state ≡ false
    → client_fsm_step d1.state ev_ok ≡ ok next
    → turn os r (d, world, s)
      ≡ ok (record d1 { state = next }, world1, after_turn d1 (record d1 { state = next }) s)
unfolding turn handle_write_socket
turn_lem os r d d1 world world1 s next fine sent other stepped =
    rw sent (rw (handle_read_fine r d1 (written d1 s) fine, other, stepped) refl)

-- A turn in SEND_BODY takes the mail off the list.
pub turn_body_lem :
    (os : Os) (r : Received) (d d1 d2 : Domain) (world world1 : World) (s : Sockets)
    → IsFine r
    → send_msg_to_server os d world ≡ ok (pos 0, d1, world1)
    → is_body d1.state ≡ true
    → sent_mail d1 ev_ok ≡ ok d2
    → turn os r (d, world, s) ≡ ok (d2, world1, after_turn d1 d2 s)
unfolding turn handle_write_socket
turn_body_lem os r d d1 d2 world world1 s fine sent body taken =
    rw sent (rw (handle_read_fine r d1 (written d1 s) fine, body, taken) refl)

pub turns-cons :
    (os : Os) (r : Received) (rs : List Received) (p q : Position)
    → turn os r p ≡ ok q
    → turns os (r ∷ rs) p ≡ turns os rs q
unfolding turns
turns-cons os r rs p q h = rw h refl

pub turns-nil : (os : Os) (p : Position) → turns os [] p ≡ ok p
unfolding turns
turns-nil os p = refl
