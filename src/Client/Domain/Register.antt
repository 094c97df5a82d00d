-- ===== src/Client/Domain/Register.antt =====
-- A new connection for a domain, smtp_proj/client/src/domain_proc.c: `init_mail_domain_conn_settings`
-- and then the server's greeting in `handle_read_socket`.
use pvs_course_project.Base.{ℕ, ◌≡◌, refl, ◌+◌, ltb, lt→ltb, true, Run, ok, ◌>>=◌, arith}
use pvs_course_project.Base.Int.{ℤ, pos, neg}
use pvs_course_project.Client.Fsm.{
  State, st_init, st_send_helo, st_connect, st_done, client_fsm_step,
}
use pvs_course_project.Client.Requests.{Domain, World, Os, send_for_state, send_msg_to_server}
use pvs_course_project.Client.Domain.{
  Sockets, fd_set, after_read, init_mail_domain_conn_settings, handle_read_socket,
}
use pvs_course_project.Client.Domain.Turns.{Received, IsFine, handle_read_fine}

abbrev pub in_state : State → Domain → Domain
in_state st d = record d { state = st }

-- The connection, and the greeting.
unfoldable pub open_connection : ℤ → Received → Domain → Sockets → Run (Domain × Sockets)
open_connection fd (chunks, ending) d s =
    init_mail_domain_conn_settings fd d s >>= λ (d1, s1). handle_read_socket chunks ending d1 s1

-- After a connection is made and the server has greeted, a domain that was idle (INIT) is about to
-- send HELO; a domain whose last connection failed (DONE) is in CONNECT, a state in which the client
-- sends nothing, so that the server is never answered. A connection that cannot be made leaves either
-- in DONE.
pub open_connection_lem :
    (os : Os) (world : World) (n : ℕ) (r : Received) (d : Domain) (s : Sockets)
    → IsFine r
    → ((d1 : Domain) × (s1 : Sockets) × (open_connection (pos n) r (in_state st_init d) s
          ≡ ok (in_state st_send_helo d1, s1)))
      × ((d1 : Domain) × (s1 : Sockets) × (open_connection (pos n) r (in_state st_done d) s
            ≡ ok (in_state st_connect d1, s1))
          × (send_msg_to_server os (in_state st_connect d1) world
              ≡ ok (pos 0, in_state st_connect d1, world)))
      × (init_mail_domain_conn_settings (neg 1) (in_state st_init d) s ≡ ok (in_state st_done d, s))
      × (init_mail_domain_conn_settings (neg 1) (in_state st_done d) s ≡ ok (in_state st_done d, s))
unfolding open_connection init_mail_domain_conn_settings client_fsm_step send_msg_to_server
    send_for_state
open_connection_lem os world n r d s fine =
    let d1 = record d {
      socket_fd = pos n;
      number_of_attempts = pos 0;
      last_attempt_time = pos 0;
      curr_rcpts_index = neg 1;
    } in
    let connected : ltb 0 (n + 1) ≡ true = lt→ltb 0 (n + 1) (omega arith) in
    let s1 = record s {
      read_fds = fd_set (pos n) s.read_fds;
      except_fds = fd_set (pos n) s.except_fds;
    } in
    (
      (
        d1,
        after_read (in_state st_send_helo d1) s1,
        rw connected (handle_read_fine r (in_state st_connect d1) s1 fine),
      ),
      (
        d1,
        after_read (in_state st_connect d1) s1,
        rw connected (handle_read_fine r (in_state st_init d1) s1 fine),
        refl,
      ),
      refl,
      refl,
    )
