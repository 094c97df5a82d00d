-- ===== src/Tests/Child.antt =====
-- A worker of smtp_proj/client with one domain.
use pvs_course_project.Base.{◌+◌, ◌≡◌, refl, true, [], ◌∷◌, none, some, codes, ok, Returns, arith}
use pvs_course_project.Base.Int.{pos, neg}
use pvs_course_project.Client.Fsm.{st_send_mail_from}
use pvs_course_project.Client.MailList.Laws.{nodes_of}
use pvs_course_project.Client.Response.{failed}
use pvs_course_project.Client.Requests.{Domain, World, Os}
use pvs_course_project.Client.Domain.{Worker, register_new_email}
use pvs_course_project.Client.Domain.Names.{IsRegistry, register_new_email-IsRegistry}
use pvs_course_project.Client.Child.{Events, child_turn}

abbrev domain : Domain
domain = record {
  domain = codes "b.org";
  socket_fd = pos 4;
  mails_list = nodes_of (codes "/m/new/1.mbox" ∷ []);
  state = st_send_mail_from;
  buffer = none;
  retry_time = pos 60;
  total_send_time = pos 3600;
  number_of_attempts = pos 0;
  last_attempt_time = pos 0;
  can_be_send = pos 0;
  curr_rcpts_index = neg 1;
  request_buf = [];
}

abbrev os : Os
os = record {
  accepts = λ log fd text. true;
  host_name = codes "home";
  files = λ moves path. none;
  now = pos 100;
}

abbrev world : World
world = record { sent = []; renamed = []; saved = none }

-- The reply to MAIL FROM is awaited.
abbrev worker : Worker
worker = record {
  domains = domain ∷ [];
  sockets = record {
    read_fds = pos 4 ∷ [];
    write_fds = [];
    except_fds = pos 4 ∷ [];
    closed_fds = [];
  };
  maxfd = pos 4;
}

-- Nothing is ready, and no mail comes.
abbrev silence : Events
silence = record {
  mail = none;
  select = λ fds. some ([], [], []);
  received = λ fd. ([], failed);
  os = os;
}

-- What is left of the sets when nothing was ready.
silent_run :
    child_turn (λ n. n + 8) (λ name. pos 5) domain (pos 3600) (pos 60) silence (worker, world)
    ≡ ok (
      record worker {
        sockets = record { read_fds = []; write_fds = []; except_fds = []; closed_fds = [] };
      },
      world,
    )
unfolding child_turn
silent_run = refl

worker-IsRegistry : IsRegistry worker
worker-IsRegistry = ((tt, tt), omega arith)

register_new_email-IsRegistry_example : Returns IsRegistry (
    register_new_email
      (λ n. n + 8)
      (λ name. pos 5)
      domain
      (codes "/m/new/7.100.c.org.mbox")
      (pos 3600)
      (pos 60)
      worker)
register_new_email-IsRegistry_example =
    register_new_email-IsRegistry (λ n. n + 8) (λ name. pos 5) domain
      (codes "/m/new/7.100.c.org.mbox") (pos 3600) (pos 60) worker worker-IsRegistry
