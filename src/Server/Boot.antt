-- ===== src/Server/Boot.antt =====
-- The start and the end of the server: `main` of smtp_proj/server/src/server.c, and `conn_accept`,
-- `prefork`, `conn_destroy` and the signal handlers of smtp_proj/server/src/conn.c. What the system
-- calls, and the functions that other modules model, return is given.
pub mod Ends
pub mod Outcome
pub mod Shutdown
use pvs_course_project.Base.{
  ℕ, zero, suc, ◌+◌, Bool, true, false, not, ◌&&◌, ◌||◌, List, [], ◌∷◌, ◌++◌, Option, none, some,
  Bytes, codes, set, Run, ok, exited, ◌>>=◌, ltb, ◌==◌, if◌then◌else◌,
}
use pvs_course_project.Base.Int.{ℤ, pos, negsuc, neg, ltb_ℤ, eq_ℤ}
use pvs_course_project.Server.Config.{ServerOpts}
use pvs_course_project.Server.Log.{Logger}
use pvs_course_project.Server.Loop.{is_set}

abbrev is_negative : ℤ → Bool
is_negative a = ltb_ℤ a (pos 0)

abbrev pub is_zero : ℤ → Bool
is_zero a = eq_ℤ a (pos 0)

-- `fcntl` with F_GETFL, and with F_SETFL.
unfoldable pub socket_nonblock : ℤ → ℤ → ℤ
socket_nonblock flags set_flags =
    if is_negative flags then neg 1 else if is_negative set_flags then neg 1 else pos 0

pub data Role : Type 0 where
  master worker : Role

-- How `prefork` returns, with what it leaves in `worker_pids`: -1, or 0 in the master and the workers.
pub data Forked : Type 0 where
  fork_failed : List ℤ → Forked
  forked : Role → List ℤ → Forked

-- The loop, over `n` workers from `i` on; `fork i` is what the call for worker `i` returns.
unfoldable pub fork_from : (ℕ → ℤ) → ℕ → ℕ → List ℤ → Forked
fork_from fork zero i pids = forked master pids
fork_from fork (suc n) i pids =
    let rest = fork_from fork n (suc i) (set pids i (fork i)) in
    if is_zero (fork i)
    then forked worker (set pids i (fork i))
    else (if eq_ℤ (fork i) (neg 1) then fork_failed (set pids i (fork i)) else rest)

-- Where `sigaction` fails, `handle_signal` ends the process.
abbrev pub with_handler : Bool → Forked → Run Forked
with_handler sigaction (fork_failed pids) = ok (fork_failed pids)
with_handler true (forked role pids) = ok (forked role pids)
with_handler false (forked role pids) = exited 0

unfoldable pub prefork : (ℕ → ℤ) → Bool → ℕ → List ℤ → Run Forked
unfolding fork_from
prefork fork sigaction worker_count pids =
    with_handler sigaction (fork_from fork worker_count 0 pids)

-- What the calls of `conn_accept` return.
pub record AcceptCalls : Type 0 where
  pub socket : ℤ
  pub flags : ℤ
  pub set_flags : ℤ
  pub setsockopt : ℤ
  pub bind : Bytes × ℤ → ℤ
  pub listen : ℤ
  pub fork : ℕ → ℤ
  pub sigaction : Bool

-- `conn_accept` returns -1 with `worker_pids` as it is then and the listener closed, or its process
-- has come to the loop of a worker.
pub data Accepted : Type 0 where
  refused : List ℤ → Accepted
  listening : Role → List ℤ → Accepted

abbrev def_ip : Bytes
def_ip = codes "127.0.0.1"

abbrev def_port : ℤ
def_port = pos 25

-- The address that the listener is bound to.
abbrev bind_address : ServerOpts → Bytes × ℤ
bind_address opts = (
  elim opts.ip [ [] ↦ def_ip | c ∷ s ↦ c ∷ s ],
  if is_zero opts.port then def_port else opts.port,
)

abbrev pub accepted : Forked → Accepted
accepted (fork_failed pids) = refused pids
accepted (forked role pids) = listening role pids

-- The calls that make the listener.
abbrev pub is_bound : AcceptCalls → ServerOpts → Bool
is_bound calls opts =
    not (is_negative calls.socket)
    && not (is_negative (socket_nonblock calls.flags calls.set_flags))
    && is_zero calls.setsockopt
    && is_zero (calls.bind (bind_address opts))
    && is_zero calls.listen

unfoldable pub conn_accept : AcceptCalls → ServerOpts → ℕ → List ℤ → Run Accepted
unfolding socket_nonblock prefork
conn_accept calls opts worker_count pids =
    let preforked = prefork calls.fork calls.sigaction worker_count pids in
    if is_bound calls opts then (preforked >>= λ f. ok (accepted f)) else ok (refused pids)

-- What the calls of `main` return. `log_pid` is the result of `fork`, `logger` what becomes of
-- `logger_start` in the log process, and `unset` what `malloc` leaves in `worker_pids`.
pub record MainCalls : Type 0 where
  pub argc : ℕ
  pub config_read_file : Bool
  pub server_opts_init : ℤ × ServerOpts
  pub log_opts_init : ℤ
  pub set_id : ℤ
  pub protocol_init : ℤ
  pub maildir_init : ℤ
  pub log_pid : ℤ
  pub logger : Logger
  pub unset : List ℤ
  pub accept : AcceptCalls

-- What becomes of `main`: a process that serves or logs, or the end, with its exit code and the
-- processes to which it sends SIGINT.
pub data MainEnd : Type 0 where
  serves : Role → List ℤ → MainEnd
  logs : Logger → MainEnd
  ends : ℕ → List ℤ → MainEnd

-- The label DESTRUCT. `worker_pids` is null, `none`, up to the `malloc`.
abbrev destruct : ℤ → Option (List ℤ) → MainEnd
destruct log_pid none = ends 1 (log_pid ∷ [])
destruct log_pid (some pids) = ends 1 (log_pid ∷ pids)

abbrev pub after_accept : ℤ → Accepted → MainEnd
after_accept log_pid (refused pids) = destruct log_pid (some pids)
after_accept log_pid (listening role pids) = serves role pids

-- The steps before the fork, which set no process id.
abbrev pub is_prepared : MainCalls → Bool
is_prepared calls =
    calls.argc == 2
    && calls.config_read_file
    && is_zero calls.server_opts_init.0
    && is_zero calls.log_opts_init
    && is_zero calls.set_id
    && is_zero calls.protocol_init
    && is_zero calls.maildir_init

abbrev to_count : ℤ → ℕ
to_count (pos n) = n
to_count (negsuc n) = 0

-- The `switch` on `fork`. The cases have no `break`: the log process goes on to the next case when
-- `logger_start` has returned.
unfoldable pub after_fork : MainCalls → Run MainEnd
unfolding conn_accept
after_fork calls =
    let parent =
      conn_accept calls.accept calls.server_opts_init.1
        (to_count calls.server_opts_init.1.process_count) calls.unset
      >>= λ a. ok (after_accept calls.log_pid a) in
    if is_zero calls.log_pid
    then ok (if calls.logger.stopped then destruct calls.log_pid none else logs calls.logger)
    else (if eq_ℤ calls.log_pid (neg 1) then ok (destruct calls.log_pid none) else parent)

-- `log_pid` is a global, and 0 up to the fork.
unfoldable pub main : MainCalls → Run MainEnd
unfolding after_fork
main calls =
    let forked = after_fork calls in
    if is_prepared calls then forked else ok (destruct (pos 0) none)

abbrev pub response_421 : Bytes
response_421 = codes "421 Server is not available\r\n"

-- The last texts that are sent; each socket is closed then, whatever `send` returns.
abbrev pub LastTexts : Type 0
LastTexts = List (ℕ × Bytes)

-- `n` descriptors from `i` on.
unfoldable pub destroy_from : List ℕ → List ℕ → ℕ → ℕ → LastTexts
unfolding is_set
destroy_from read_fds write_fds zero i = []
destroy_from read_fds write_fds (suc n) i =
    let rest = destroy_from read_fds write_fds n (suc i) in
    if is_set i read_fds || is_set i write_fds then (i, response_421) ∷ rest else rest

unfoldable pub conn_destroy : List ℕ → List ℕ → ℕ → LastTexts
unfolding destroy_from
conn_destroy read_fds write_fds max_fd = destroy_from read_fds write_fds (suc max_fd) 0

-- The end of a process at a signal: the processes to which it sends SIGINT, and the
-- last texts. The exit code is 0.
pub record Stopped : Type 0 where
  pub killed : List ℤ
  pub told : LastTexts

abbrev pub sigint : ℕ
sigint = 2

-- `none` is a handler that does nothing.
unfoldable pub handle_signal : ℕ → List ℕ → List ℕ → ℕ → Option Stopped
unfolding conn_destroy
handle_signal signal read_fds write_fds max_fd =
    if signal == sigint
    then some (record { killed = []; told = conn_destroy read_fds write_fds max_fd })
    else none

unfoldable pub handle_signal_master : ℤ → List ℤ → ℕ → List ℕ → List ℕ → ℕ → Option Stopped
unfolding conn_destroy
handle_signal_master log_pid worker_pids signal read_fds write_fds max_fd =
    if signal == sigint
    then some
        (record { killed = log_pid ∷ worker_pids; told = conn_destroy read_fds write_fds max_fd })
    else none
