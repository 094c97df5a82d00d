-- ===== src/Tests/Boot.antt =====
-- Starts of smtp_proj/server and smtp_proj/client that fail, and the end of the server.
use pvs_course_project.Base.{
  ℕ, zero, suc, ◌≡◌, refl, true, false, [], ◌∷◌, ◌++◌, inr, List, Option, some, none, Bytes, codes,
  str_eq, Run, ok, fault, overrun, null_pointer, arith,
}
use pvs_course_project.Base.Int.{ℤ, pos, neg}
use pvs_course_project.Server.Fsm.{init}
use pvs_course_project.Server.Config.{ServerOpts}
use pvs_course_project.Server.Loop.{failed, Net, Round}
use pvs_course_project.Server.Boot.{AcceptCalls, MainCalls}
use pvs_course_project.Client.Scheduler.{get_mail_proc_idx}
use pvs_course_project.Client.Options.{unread, Owner, runs, Conf, Started, read_numbers}
use pvs_course_project.Client.Options.Ignored.{start, refused_config_runs}
use pvs_course_project.Client.Mx.{mx, other_type, Resolver, SockAddr, find_server}
use pvs_course_project.Client.Mx.Stale.{find_servers, stale_server}

abbrev opts : ServerOpts
opts = record {
  ip = [];
  port = pos 0;
  user = codes "mail";
  group = codes "mail";
  process_count = pos 3;
  domain = codes "a.org";
  maildir = codes "/m";
}

-- The listener is made, the first worker is started, and the second cannot be forked.
abbrev accept : AcceptCalls
accept = record {
  socket = pos 3;
  flags = pos 2;
  set_flags = pos 0;
  setsockopt = pos 0;
  bind = λ address. pos 0;
  listen = pos 0;
  fork = λ i. elim i [ zero ↦ pos 101 | suc k ↦ neg 1 ];
  sigaction = true;
}

abbrev calls : MainCalls
calls = record {
  argc = 2;
  config_read_file = true;
  server_opts_init = (pos 0, opts);
  log_opts_init = pos 0;
  set_id = pos 0;
  protocol_init = pos 0;
  maildir_init = pos 0;
  log_pid = pos 100;
  logger = record { file = none; stopped = true };
  unset = pos 1 ∷ pos 2 ∷ pos 3 ∷ [];
  accept = accept;
}

-- The listener is 3; of the sockets 4, 5 and 6, `select` has found 4 and 6 ready, and 4 has been closed.
abbrev round : Round
round = record {
  listener = 3;
  select = λ reads writes closed. some (4 ∷ [], 6 ∷ []);
  accept = none;
  recv = λ fd. some [];
  send = λ fd. failed;
  old_state = init;
  now = record { tv_sec = 1; tv_usec = 0 };
}

abbrev net : Net
net = record {
  connections = [];
  active_read_fds = 3 ∷ 4 ∷ 5 ∷ [];
  active_write_fds = 6 ∷ [];
  closed = [];
  max_fd = 6;
  buf = [];
}

-- Configurations by a number, of which 0 has no section and the others have section 1, with log
-- level 1 and a user that does not exist.
abbrev section_of : ℕ → Bytes → Option ℕ
section_of config name = elim config [ zero ↦ none | suc k ↦ some 1 ]

abbrev no_int : ℕ → Bytes → Option ℤ
no_int config name = none

abbrev text_of : ℕ → Bytes → Option Bytes
text_of config name = some (codes "/m")

abbrev level_of : ℕ → Bytes → Option ℤ
level_of section name = some (pos 1)

abbrev user_of : ℕ → Bytes → Option Bytes
user_of section name = some (codes "nobody")

abbrev owner_of : Bytes → Option Owner
owner_of path = some (0, 0)

abbrev nobody : Bytes → Option ℕ
nobody name = none

abbrev keep : ℕ → ℕ → Option ℕ
keep id cred = some cred

abbrev begin : ℕ → Option (Option ℕ) → ℕ → Run (Started ℕ)
begin =
    start section_of no_int text_of level_of user_of none owner_of nobody nobody keep keep (0, 0)

abbrev conf : Conf
conf = record {
  proc_cnt = pos 6;
  retry_time = pos 10;
  total_send_time = pos 120;
  log_lvl = pos 1;
  mail_dir = some (codes "/m");
  hostname = some (codes "/m");
}

refused_config_runs_example :
    (begin 2 none 0 ≡ ok (runs unread 0))
    × (begin 2 (some none) 0 ≡ ok (runs unread 0))
    × (begin 2 (some (some 0)) 0 ≡ ok (runs unread 0))
    × (begin 2 (some (some 1)) 0 ≡ ok (runs conf 0))
    × (get_mail_proc_idx (λ n. n) (codes "b.org") [] ≡ fault overrun)
unfolding read_numbers
refused_config_runs_example =
    refused_config_runs section_of no_int text_of level_of user_of none owner_of nobody nobody keep
      keep (0, 0) 2 0 (λ n. n) (codes "b.org") 0 1 1 (codes "/m") (codes "/m") (codes "nobody") 1
      (0, 0) refl refl refl refl refl (omega arith) refl refl refl refl

-- Three domains: one with a server, one without an MX record, one that is not known.
abbrev resolver : Resolver
resolver = record {
  res_query = λ name. elim name [
    | [] ↦ none
    | c ∷ [] ↦ some (mx (codes "mx.a"))
    | c ∷ d ∷ s ↦ some other_type
  ];
  gethostbyname = λ name. some (10 ∷ 0 ∷ 0 ∷ 1 ∷ []);
}

abbrev own : Bytes
own = codes "a"

apart_run :
    (str_eq (codes "a") (codes "localhost.com") ≡ false)
    × (str_eq (codes "bb") (codes "localhost.com") ≡ false)
    × (str_eq [] (codes "localhost.com") ≡ false)
unfolding str_eq
apart_run = (refl, refl, refl)

cc_run : str_eq (codes "cc") (codes "localhost.com") ≡ false
unfolding str_eq
cc_run = refl

stale_server_example :
    (addr : SockAddr) × (others : List SockAddr) × (find_servers resolver
        (own ∷ codes "cc" ∷ codes "bb" ∷ [])
        []
      ≡ ok (addr ∷ (others ++ addr ∷ []), codes "mx.a"))
    × (find_server resolver [] (codes "mx.a") ≡ fault null_pointer)
stale_server_example =
    stale_server resolver own (codes "cc" ∷ []) (codes "bb") [] (codes "mx.a") [] apart_run.0
      apart_run.1 apart_run.2 (inr (cc_run, refl), tt) refl refl refl
