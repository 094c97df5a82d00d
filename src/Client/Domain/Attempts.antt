-- ===== src/Client/Domain/Attempts.antt =====
-- The time of the last attempt of a domain, which nothing in smtp_proj/client ever sets
-- (smtp_proj/client/src/smtp_client.c and domain_proc.c).
use pvs_course_project.Base.{
  ◌≡◌, refl, ◌∙◌, Bool, true, false, not, ◌&&◌, none, if◌then◌else◌, List, [], ◌∷◌, Bytes, codes,
  Run, ok, fault, exited, aborted, diverged, ok_inj, Returns, Returns-any, Returns-bind, >>=-eq-ok,
  ◌>>=◌,
}
use pvs_course_project.Base.Int.{ℤ, pos, neg, ltb_ℤ}
use mathlib.Core.Path.{subst, subst⁻¹}
use pvs_course_project.Common.Replace.{str_replace}
use pvs_course_project.Client.Fsm.{
  State, st_init, st_send_helo, st_send_mail_from, st_send_rcpt_to, st_send_data, st_send_body,
  st_send_quit, st_connect, st_invalid, st_done, Event, ev_ok, ev_error, ev_multiple_emails,
  client_fsm_step,
}
use pvs_course_project.Client.MailList.{remove_first, count}
use pvs_course_project.Client.Response.{Ending, read_data_from_server, check_server_code}
use pvs_course_project.Client.Requests.{
  Domain, World, Os, send_helo, send_rcpt_to, send_data_msg, send_msg_body, send_quit, head_val,
  store, read_msg_file, send_mail_from, send_first, send_for_state, send_msg_to_server,
}
use pvs_course_project.Client.Domain.{
  is_body, is_error, Sockets, after_write, step_to, sent_mail, handle_read_socket,
  handle_write_socket, init_mail_domain_conn_settings,
}

-- What may be done for a domain: its socket is written to or read from, or it gets a new connection.
pub data Action : Type 0 where
  writes : Os → Action
  reads : List Bytes → Ending → Action
  connects : ℤ → Action

abbrev DomainState : Type 0
DomainState = Domain × World × Sockets

unfoldable pub act : Action → DomainState → Run DomainState
act (writes os) (d, world, s) = handle_write_socket os d world s
act (reads chunks ending) (d, world, s) =
    handle_read_socket chunks ending d s >>= λ p. ok (p.0, world, p.1)
act (connects fd) (d, world, s) =
    init_mail_domain_conn_settings fd d s >>= λ p. ok (p.0, world, p.1)

unfoldable pub act_all : List Action → DomainState → Run DomainState
act_all [] p = ok p
act_all (a ∷ actions) p = act a p >>= act_all actions

Returns-each :
    {A B : Type 0} (P : B → Type 0) (m : Run A) (f : A → Run B)
    → ((a : A) → Returns P (f a))
    → Returns P (m >>= f)
Returns-each P m f h = Returns-bind (λ _. Unit {0}) P m f (Returns-any m) (λ a _. h a)

-- The last attempt is the same afterwards.
abbrev Same : Domain → ℤ × Domain × World → Type 0
Same d (code, d1, world) = d1.last_attempt_time ≡ d.last_attempt_time

store-Keeps :
    (os : Os) (d : Domain) (sent : Run (ℤ × Bytes × World)) → Returns (Same d) (sent >>= store os d)
store-Keeps os d sent = Returns-each (Same d) sent (store os d) (λ r. refl)

send_first-Keeps : (os : Os) (d : Domain) (world : World) → Returns (Same d) (send_first os d world)
send_first-Keeps os d world = Returns-each (Same d) (head_val d.mails_list) _ (λ val.
    Returns-each (Same d) (read_msg_file os world val) _ (λ buffer.
      Returns-each (Same d) (str_replace val (codes "new") (codes "cur")) _ (λ new_name.
        store-Keeps os (record d { buffer = buffer })
          (send_mail_from os d.socket_fd buffer
            (record world { renamed = (val, new_name) ∷ world.renamed })))))

send_for_state-Keeps :
    (os : Os) (d : Domain) (world : World) (state : State)
    → d.state ≡ state
    → Returns (Same d) (send_for_state os d world)
unfolding send_for_state
send_for_state-Keeps os d world st_init e = rw e refl
send_for_state-Keeps os d world st_send_helo e =
    rw e (store-Keeps os (record d { state = st_send_helo }) (send_helo os d.socket_fd world))
send_for_state-Keeps os d world st_send_mail_from e =
    rw e (send_first-Keeps os (record d { state = st_send_mail_from }) world)
send_for_state-Keeps os d world st_send_rcpt_to e =
    rw e (store-Keeps os (record d { state = st_send_rcpt_to }) (send_rcpt_to os d.socket_fd world))
send_for_state-Keeps os d world st_send_data e =
    rw e (store-Keeps os (record d { state = st_send_data }) (send_data_msg os d.socket_fd world))
send_for_state-Keeps os d world st_send_body e =
    rw e (store-Keeps os (record d { state = st_send_body }) (send_msg_body os d.socket_fd world))
send_for_state-Keeps os d world st_send_quit e =
    rw e (store-Keeps os (record d { state = st_send_quit }) (send_quit os d.socket_fd world))
send_for_state-Keeps os d world st_connect e = rw e refl
send_for_state-Keeps os d world st_invalid e = rw e refl
send_for_state-Keeps os d world st_done e = rw e refl

-- Before a first attempt the client sends at once.
untried_lem :
    (os : Os) (d : Domain) (world : World)
    → d.last_attempt_time ≡ pos 0
    → send_msg_to_server os d world ≡ send_for_state os d world
unfolding send_msg_to_server
untried_lem os d world h = rw h refl

send_msg_to_server-Keeps :
    (os : Os) (d : Domain) (world : World)
    → d.last_attempt_time ≡ pos 0
    → Returns (Same d) (send_msg_to_server os d world)
send_msg_to_server-Keeps os d world h =
    subst⁻¹ (Returns (Same d)) (untried_lem os d world h)
      (send_for_state-Keeps os d world d.state refl)

abbrev Untried : Domain → Type 0
Untried d = d.last_attempt_time ≡ pos 0

abbrev FirstUntried : Domain × Sockets → Type 0
FirstUntried p = Untried p.0

Returns-if :
    {A : Type 0} (P : A → Type 0) (b : Bool) (m n : Run A)
    → Returns P m
    → Returns P n
    → Returns P (if b then m else n)
Returns-if P true m n h k = h
Returns-if P false m n h k = k

step_to-Untried : (d : Domain) (event : Event) → Untried d → Returns Untried (step_to d event)
step_to-Untried d event h = Returns-each Untried (client_fsm_step d.state event) _ (λ next. h)

abbrev IsUntried : DomainState → Type 0
IsUntried (d, world, s) = d.last_attempt_time ≡ pos 0

handle_read_socket-IsUntried :
    (chunks : List Bytes) (ending : Ending) (d : Domain) (s : Sockets)
    → d.last_attempt_time ≡ pos 0
    → Returns FirstUntried (handle_read_socket chunks ending d s)
unfolding handle_read_socket
handle_read_socket-IsUntried chunks ending d s h =
    Returns-each FirstUntried (read_data_from_server chunks ending) _ (λ response.
      Returns-each FirstUntried (check_server_code response) _ (λ event.
        Returns-bind Untried FirstUntried _ _
          (Returns-if Untried (is_body d.state && not (is_error event)) (sent_mail d event)
            (step_to d event)
            (Returns-each Untried (remove_first d.mails_list) _ (λ r.
              step_to-Untried (record d { mails_list = r.0; buffer = none })
                (if ltb_ℤ (pos 0) (count r.0) then ev_multiple_emails else event) h))
            (step_to-Untried d event h))
          (λ d1 k. k)))

init-IsUntried :
    (fd : ℤ) (d : Domain) (s : Sockets)
    → d.last_attempt_time ≡ pos 0
    → Returns FirstUntried (init_mail_domain_conn_settings fd d s)
unfolding init_mail_domain_conn_settings
init-IsUntried fd d s h =
    Returns-bind Untried FirstUntried (step_to d ev_ok) _ (step_to-Untried d ev_ok h) (λ d1 k.
      Returns-if FirstUntried (ltb_ℤ (neg 1) fd) _ _ refl (
        Returns-bind Untried FirstUntried (step_to d1 ev_error) _ (step_to-Untried d1 ev_error k)
          (λ d2 l. l)))

act-IsUntried : (a : Action) (p : DomainState) → IsUntried p → Returns IsUntried (act a p)
unfolding act handle_write_socket
act-IsUntried (writes os) (d, world, s) h =
    Returns-bind (Same d) IsUntried (send_msg_to_server os d world) _
      (send_msg_to_server-Keeps os d world h)
      (λ r same. Returns-each IsUntried (after_write r.0 r.1 s) _ (λ s1. same ∙ h))
act-IsUntried (reads chunks ending) (d, world, s) h =
    Returns-bind FirstUntried IsUntried (handle_read_socket chunks ending d s) _
      (handle_read_socket-IsUntried chunks ending d s h) (λ p k. k)
act-IsUntried (connects fd) (d, world, s) h =
    Returns-bind FirstUntried IsUntried (init_mail_domain_conn_settings fd d s) _
      (init-IsUntried fd d s h) (λ p k. k)

act_all-IsUntried :
    (actions : List Action) (p : DomainState) → IsUntried p → Returns IsUntried (act_all actions p)
unfolding act_all
act_all-IsUntried [] p h = h
act_all-IsUntried (a ∷ actions) p h =
    Returns-bind IsUntried IsUntried (act a p) (act_all actions) (act-IsUntried a p h)
      (λ q k. act_all-IsUntried actions q k)

connected_lem :
    (fd : ℤ) (d d1 : Domain) (s s1 : Sockets)
    → ltb_ℤ (neg 1) fd ≡ true
    → init_mail_domain_conn_settings fd d s ≡ ok (d1, s1)
    → Untried d1
unfolding init_mail_domain_conn_settings
connected_lem fd d d1 s s1 up run =
    let (stepped, _, e) = >>=-eq-ok (step_to d ev_ok) _ run in
    subst FirstUntried (ok_inj (rw up at e)) refl

Returns-map :
    {A : Type 0} (P Q : A → Type 0) (m : Run A) → ((a : A) → P a → Q a) → Returns P m → Returns Q m
Returns-map P Q (ok a) f h = f a h
Returns-map P Q (fault e) f h = tt
Returns-map P Q (exited n) f h = tt
Returns-map P Q aborted f h = tt
Returns-map P Q diverged f h = tt

-- A domain that has got a connection never waits and is never given up, whatever its time to wait and
-- its total time for sending are: `last_attempt_time` is set to 0 then and to nothing else by what is
-- written to its socket, what is read from it, and further connections, however many follow, so that
-- `send_msg_to_server` always goes on to send what the state asks for.
pub client_never_waits :
    (fd : ℤ) (d d1 : Domain) (s s1 : Sockets) (world : World) (actions : List Action) (os : Os)
    → ltb_ℤ (neg 1) fd ≡ true
    → init_mail_domain_conn_settings fd d s ≡ ok (d1, s1)
    → Returns
        (λ p. send_msg_to_server os p.0 p.1 ≡ send_for_state os p.0 p.1)
        (act_all actions (d1, world, s1))
client_never_waits fd d d1 s s1 world actions os up run =
    Returns-map IsUntried _ (act_all actions (d1, world, s1)) (λ p h. untried_lem os p.0 p.1 h)
      (act_all-IsUntried actions (d1, world, s1) (connected_lem fd d d1 s s1 up run))
