-- ===== src/Client/Child.antt =====
-- One turn of the loop of `child_process_worker_start` in smtp_proj/client/src/scheduler.c, up to the
-- end of the loop over the sockets: a new mail is registered, and the sockets that `select` gives are
-- served. The statements behind it use names that are not declared, and return from the function, so
-- that there is no second turn; they are left out, as are the logs.
use pvs_course_project.Base.{
  ℕ, zero, suc, Bool, true, false, List, [], ◌∷◌, Option, none, some, Bytes, get_elem?, set, Run,
  ok, fault, wild_pointer, ◌>>=◌, if◌then◌else◌,
}
use pvs_course_project.Base.Int.{ℤ, pos, negsuc, ltb_ℤ, eq_ℤ}
use pvs_course_project.Client.Response.{Ending}
use pvs_course_project.Client.Requests.{Domain, World, Os}
use pvs_course_project.Client.Domain.{
  Sockets, Worker, register_new_email, handle_read_socket, handle_write_socket,
}

-- The three sets of `select`.
abbrev FdSets : Type 0
FdSets = List ℤ × List ℤ × List ℤ

-- What the calls of one turn of the loop give: `msgrcv` a mail, or -1; `select` the sockets that are
-- ready, with empty sets at the end of its 15 seconds, or `none` for -1, which leaves the sets as they
-- are; and for each socket what `recv` gives.
pub record Events : Type 0 where
  pub mail : Option Bytes
  pub select : FdSets → Option FdSets
  pub received : ℕ → List Bytes × Ending
  pub os : Os

unfoldable pub is_set : ℤ → List ℤ → Bool
is_set fd [] = false
is_set fd (x ∷ fds) = let rest = is_set fd fds in if eq_ℤ x fd then true else rest

-- The first descriptor with the socket. The pointer is not set where there is none.
unfoldable find_socket : ℤ → List Domain → Option ℕ
find_socket fd [] = none
find_socket fd (d ∷ ds) =
    let rest = find_socket fd ds in
    if eq_ℤ d.socket_fd fd then some 0 else elim rest [ none ↦ none | some j ↦ some (suc j) ]

unfoldable top_fd : ℤ → List Domain → ℤ
top_fd maxfd [] = maxfd
top_fd maxfd (d ∷ ds) = top_fd (if ltb_ℤ maxfd d.socket_fd then d.socket_fd else maxfd) ds

abbrev replaced : Sockets → Option FdSets → Sockets
replaced s none = s
replaced s (some ready) = record s { read_fds = ready.0; write_fds = ready.1; except_fds = ready.2 }

-- The domain that `cur_mail_domain` points to.
abbrev deref : Worker → Option ℕ → Run (ℕ × Domain)
deref w none = fault wild_pointer
deref w (some j) = elim (get_elem? w.domains j) [ none ↦ fault wild_pointer | some d ↦ ok (j, d) ]

abbrev read_fd : Events → ℕ → Option ℕ → Worker → Run Worker
read_fd events i cur w = do
  (j, d) ← deref w cur
  (d1, s1) ← handle_read_socket (events.received i).0 (events.received i).1 d w.sockets
  ok (record w { domains = set w.domains j d1; sockets = s1 })

abbrev write_fd : Events → Option ℕ → Worker → World → Run (Worker × World)
write_fd events cur w world = do
  (j, d) ← deref w cur
  (d1, world1, s1) ← handle_write_socket events.os d world w.sockets
  ok (record w { domains = set w.domains j d1; sockets = s1 }, world1)

-- The body of the loop over the sockets: the set of those to write to is the one after the read.
unfoldable serve_fd : Events → ℕ → Worker → World → Run (Worker × World)
unfolding is_set find_socket
serve_fd events i w world = do
  let cur = find_socket (pos i) w.domains
  heard ← (if is_set (pos i) w.sockets.read_fds then read_fd events i cur w else ok w)
  (if is_set (pos i) heard.sockets.write_fds
      then write_fd events cur heard world
      else ok (heard, world))

-- `n` sockets from `i` on.
unfoldable serve_all : Events → ℕ → ℕ → Worker → World → Run (Worker × World)
unfolding serve_fd
serve_all events zero i w world = ok (w, world)
serve_all events (suc n) i w world =
    serve_fd events i w world >>= λ p. serve_all events n (suc i) p.0 p.1

abbrev fd_count : ℤ → ℕ
fd_count (pos n) = suc n
fd_count (negsuc n) = 0

-- An empty text is no mail.
abbrev incoming : Option Bytes → Option Bytes
incoming none = none
incoming (some []) = none
incoming (some (c ∷ path)) = some (c ∷ path)

module _ (usable : ℕ → ℕ) (connect : Bytes → ℤ) (fresh : Domain)
    (total_send_time retry_time : ℤ) where
  abbrev take_mail : Option Bytes → Worker → Run Worker
  take_mail none w = ok w
  take_mail (some path) w =
      register_new_email usable connect fresh path total_send_time retry_time w

  unfoldable pub child_turn : Events → Worker × World → Run (Worker × World)
  unfolding top_fd serve_all
  child_turn events (w, world) = do
    w1 ← take_mail (incoming events.mail) w
    let s = w1.sockets
    let w2 = record w1 {
      maxfd = top_fd w1.maxfd w1.domains;
      sockets = replaced s (events.select (s.read_fds, s.write_fds, s.except_fds));
    }
    serve_all events (fd_count w2.maxfd) 0 w2 world
