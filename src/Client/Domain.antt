-- ===== src/Client/Domain.antt =====
-- smtp_proj/client/src/domain_proc.c from `register_new_email` on: the mails of a worker process. The
-- descriptors are the ones in use, the first `ready_domains_count` of the array; a block that is
-- freed is the null pointer afterwards.
pub mod Turns
pub mod Delivery
pub mod Register
pub mod Names
pub mod Attempts
use pvs_course_project.Base.{
  ℕ, zero, suc, ◌+◌, Bool, true, false, ◌&&◌, ◌||◌, not, List, [], ◌∷◌, ◌++◌, Option, none, some,
  Bytes, codes, length, get_elem?, set, str_eq, Run, ok, fault, null_pointer, overrun, require,
  strcpy, ◌>>=◌, ◌>>◌, ltb, if◌then◌else◌,
}
use pvs_course_project.Base.Int.{ℤ, pos, neg, negsuc, ltb_ℤ, eq_ℤ}
use pvs_course_project.Common.Split.{str_split, first_token}
use pvs_course_project.Common.Dirs.{get_domain_name_from_email_full_path}
use pvs_course_project.Client.Fsm.{
  State, st_init, st_send_body, st_done, Event, ev_ok, ev_error, ev_rtime_expired,
  ev_multiple_emails, client_fsm_step,
}
use pvs_course_project.Client.MailList.{add_first, remove_first, count, new_list}
use pvs_course_project.Client.Response.{Ending, read_data_from_server, check_server_code}
use pvs_course_project.Client.Requests.{Domain, World, Os, send_msg_to_server}

-- The sets of `select`, and the sockets closed so far.
pub record Sockets : Type 0 where
  pub read_fds : List ℤ
  pub write_fds : List ℤ
  pub except_fds : List ℤ
  pub closed_fds : List ℤ

-- `FD_SET` and `FD_CLR`
abbrev pub fd_set : ℤ → List ℤ → List ℤ
fd_set fd fds = fd ∷ fds

unfoldable pub fd_clr : ℤ → List ℤ → List ℤ
fd_clr fd [] = []
fd_clr fd (x ∷ fds) = let rest = fd_clr fd fds in if eq_ℤ x fd then rest else x ∷ rest

abbrev pub is_body : State → Bool
is_body st_send_body = true
is_body _ = false

abbrev pub is_init : State → Bool
is_init st_init = true
is_init _ = false

abbrev pub is_done : State → Bool
is_done st_done = true
is_done _ = false

abbrev pub is_error : Event → Bool
is_error ev_error = true
is_error _ = false

abbrev pub step_to : Domain → Event → Run Domain
step_to d event = client_fsm_step d.state event >>= λ next. ok (record d { state = next })

-- The sets after a write, by its return value. For -3 the step of the machine is taken for its exit
-- only: the new state is not stored.
abbrev pub after_write : ℤ → Domain → Sockets → Run Sockets
after_write (pos n) d s = ok (record s {
  write_fds = fd_clr d.socket_fd s.write_fds;
  read_fds = fd_set d.socket_fd s.read_fds;
})
after_write (negsuc zero) d s = ok (record s { closed_fds = d.socket_fd ∷ s.closed_fds })
after_write (negsuc (suc zero)) d s =
    ok (record s { write_fds = fd_set d.socket_fd (fd_clr d.socket_fd s.write_fds) })
after_write (negsuc (suc (suc zero))) d s =
    client_fsm_step d.state ev_rtime_expired >>= λ new_state.
    ok (record s { write_fds = fd_clr d.socket_fd s.write_fds })
after_write (negsuc n) d s = ok (record s {
  write_fds = fd_clr d.socket_fd s.write_fds;
  read_fds = fd_set d.socket_fd s.read_fds;
})

unfoldable pub handle_write_socket : Os → Domain → World → Sockets → Run (Domain × World × Sockets)
handle_write_socket os d world s = do
  (code, d1, world1) ← send_msg_to_server os d world
  s1 ← after_write code d1 s
  ok (d1, world1, s1)

-- The mail that has been sent leaves the list, and its text is freed.
abbrev pub sent_mail : Domain → Event → Run Domain
sent_mail d event = do
  (rest, code) ← remove_first d.mails_list
  let d1 = record d { mails_list = rest; buffer = none }
  step_to d1 (if ltb_ℤ (pos 0) (count rest) then ev_multiple_emails else event)

abbrev after_read : Domain → Sockets → Sockets
after_read d s =
    let s1 =
      if is_init d.state
      then record s {
        closed_fds = d.socket_fd ∷ s.closed_fds;
        write_fds = fd_clr d.socket_fd s.write_fds;
      }
      else record s { write_fds = fd_set d.socket_fd s.write_fds } in
    record s1 { read_fds = fd_clr d.socket_fd s1.read_fds }

-- The list and the `Ending` are what `recv` gives.
unfoldable pub handle_read_socket : List Bytes → Ending → Domain → Sockets → Run (Domain × Sockets)
handle_read_socket chunks ending d s = do
  server_response ← read_data_from_server chunks ending
  event ← check_server_code server_response
  d1 ← (if is_body d.state && not (is_error event) then sent_mail d event else step_to d event)
  ok (d1, after_read d1 s)

-- `fd` is the result of `connect_to_mail_server`.
unfoldable pub init_mail_domain_conn_settings : ℤ → Domain → Sockets → Run (Domain × Sockets)
init_mail_domain_conn_settings fd d s = do
  d1 ← step_to d ev_ok
  (if ltb_ℤ (neg 1) fd
      then ok (
        record d1 {
          socket_fd = fd;
          number_of_attempts = pos 0;
          last_attempt_time = pos 0;
          curr_rcpts_index = neg 1;
        },
        record s { read_fds = fd_set fd s.read_fds; except_fds = fd_set fd s.except_fds },
      )
      else (step_to d1 ev_error >>= λ d2. ok (d2, s)))

-- The last descriptor of a domain; the loop does not stop at the first.
unfoldable pub find_last : Bytes → ℕ → List Domain → Option ℕ
find_last name i [] = none
find_last name i (d ∷ ds) =
    let rest = find_last name (suc i) ds in
    elim rest [ some j ↦ some j | none ↦ if str_eq name d.domain then some i else none ]

abbrev pub max_mail_domain_num : ℕ
max_mail_domain_num = 50

abbrev max_ℤ : ℤ → ℤ → ℤ
max_ℤ a b = if ltb_ℤ a b then b else a

-- What `register_new_email` changes: the descriptors, the sets and the global `maxfd`.
pub record Worker : Type 0 where
  pub domains : List Domain
  pub sockets : Sockets
  pub maxfd : ℤ

-- The end of `register_new_email`: the mail is dropped if no connection was made.
abbrev pub enlist : (ℕ → ℕ) → Bytes → Domain → Sockets → Run (Domain × Sockets)
enlist usable email_path d s =
    if is_done d.state
    then ok (
      record d {
        socket_fd = neg 1;
        number_of_attempts = pos 0;
        last_attempt_time = pos 0;
        curr_rcpts_index = neg 1;
      },
      record s {
        read_fds = fd_clr d.socket_fd s.read_fds;
        except_fds = fd_clr d.socket_fd s.except_fds;
      },
    )
    else add_first usable d.mails_list email_path >>= λ mails.
        ok (record d { mails_list = mails }, s)

-- `fresh` is what the unused entry of the array held before, which the source does not initialise;
-- `usable n` is the size of the block that `malloc(n)` returns.
module _ (usable : ℕ → ℕ) (connect : Bytes → ℤ) (fresh : Domain) where
  -- A domain that has no descriptor yet.
  unfoldable pub add_domain : Bytes → Bytes → ℤ → ℤ → Worker → Run Worker
  add_domain email_path name total_send_time retry_time w = do
    require (ltb (length w.domains) max_mail_domain_num) overrun
    copy ← strcpy (usable (length name)) name
    let d = record fresh {
      domain = copy;
      total_send_time = total_send_time;
      retry_time = retry_time;
    }
    (d1, s1) ← init_mail_domain_conn_settings (connect name) d w.sockets
    (d2, s2) ← enlist usable email_path (record d1 { mails_list = new_list }) s1
    ok (record { domains = w.domains ++ d2 ∷ []; sockets = s2; maxfd = max_ℤ w.maxfd d1.socket_fd })

  -- A domain that has a descriptor, which gets a new connection where it has none in use.
  unfoldable pub reuse_domain : Bytes → Bytes → ℕ → Domain → Worker → Run Worker
  reuse_domain email_path name i d w = do
    (d1, s1) ←
        (if eq_ℤ (count d.mails_list) (pos 0) || is_init d.state
          then init_mail_domain_conn_settings (connect name) d w.sockets
          else ok (d, w.sockets))
    (d2, s2) ← enlist usable email_path d1 s1
    ok (record { domains = set w.domains i d2; sockets = s2; maxfd = w.maxfd })

  abbrev pub pick : Bytes → Bytes → ℤ → ℤ → Worker → Option ℕ → Run Worker
  pick email_path name total_send_time retry_time w none =
      add_domain email_path name total_send_time retry_time w
  pick email_path name total_send_time retry_time w (some i) = elim (get_elem? w.domains i) [
    | none ↦ fault overrun
    | some d ↦ reuse_domain email_path name i d w
  ]

  unfoldable pub register_new_email : Bytes → ℤ → ℤ → Worker → Run Worker
  register_new_email email_path total_send_time retry_time w = do
    saved_email_path ← strcpy (usable (length email_path)) email_path
    tmp_cur_mail_domain ← get_domain_name_from_email_full_path usable email_path
    tokens ← str_split tmp_cur_mail_domain b','
    cur_email_domain ← first_token tokens
    pick saved_email_path cur_email_domain total_send_time retry_time w
        (find_last cur_email_domain 0 w.domains)
