-- ===== src/Tests/Mailing.antt =====
-- A worker of smtp_proj/client with one mail and with two.
use pvs_course_project.Base.{Returns, ◌≡◌, refl, [], ◌∷◌, some, none, true, Bytes, codes, ok, arith}
use pvs_course_project.Base.Int.{pos, neg}
use pvs_course_project.Common.Strtok.{fields, words}
use pvs_course_project.Common.Replace.{starts_with, str_replace}
use pvs_course_project.Client.Fsm.{
  client_fsm_step, st_init, st_connect, st_done, st_send_helo, st_send_mail_from, st_send_quit,
}
use pvs_course_project.Client.MailList.Laws.{nodes_of}
use pvs_course_project.Client.Response.{failed, read_data_from_server, check_server_code}
use pvs_course_project.Client.Requests.{
  Domain, World, Os, read_msg_file, send_for_state, send_msg_to_server,
}
use pvs_course_project.Client.Requests.Lines.{lines}
use pvs_course_project.Client.Requests.Clash.{interleaved, interleaved_recipient}
use pvs_course_project.Client.Domain.Attempts.{reads, writes, act_all, client_never_waits}
use pvs_course_project.Client.Domain.{Sockets, init_mail_domain_conn_settings}
use pvs_course_project.Client.Domain.Turns.{Received, IsFine, turns, ready}
use pvs_course_project.Client.Domain.Delivery.{mail_is_sent}
use pvs_course_project.Client.Domain.Register.{open_connection, in_state, open_connection_lem}

abbrev content : Bytes
content = codes "ann@a.org\nbob@b.org\nHello,\n\nBob\n"

-- Every write gets through, and every file has this content.
abbrev os : Os
os = record {
  accepts = λ log fd text. true;
  host_name = codes "home";
  files = λ moves path. some content;
  now = pos 100;
}

abbrev world : World
world = record { sent = []; renamed = []; saved = none }

abbrev sockets : Sockets
sockets = record { read_fds = []; write_fds = []; except_fds = []; closed_fds = [] }

abbrev domain : Domain
domain = record {
  domain = codes "b.org";
  socket_fd = pos 4;
  mails_list = nodes_of [];
  state = st_send_mail_from;
  buffer = none;
  retry_time = pos 60;
  total_send_time = pos 3600;
  number_of_attempts = pos 0;
  last_attempt_time = pos 0;
  can_be_send = pos 0;
  curr_rcpts_index = neg 1;
  request_buf = [];
}

abbrev fine : Received
fine = (codes "250 Ok\r\n" ∷ [], failed)

fine-IsFine : IsFine fine
unfolding read_data_from_server check_server_code starts_with
fine-IsFine = (codes "250 Ok\r\n", refl, refl)

lines-content :
    lines content ≡ codes "ann@a.org" ∷ codes "bob@b.org" ∷ codes "Hello," ∷ codes "Bob" ∷ []
unfolding words fields
lines-content = refl

content_read : read_msg_file os world (codes "/m/new/1.mbox") ≡ ok (some content)
unfolding read_msg_file
content_read = refl

moved : str_replace (codes "/m/new/1.mbox") (codes "new") (codes "cur") ≡ ok (codes "/m/cur/1.mbox")
unfolding str_replace
moved = refl

mail_is_sent_example :
    (d1 : Domain) × (s1 : Sockets) × (turns os (fine ∷ fine ∷ fine ∷ fine ∷ []) (
      ready (pos 4) st_send_mail_from (nodes_of (codes "/m/new/1.mbox" ∷ [])) domain,
      world,
      sockets,
    )
      ≡ ok (
        ready (pos 4) st_send_quit (nodes_of []) d1,
        record {
          sent =
              (pos 4, codes "\r\n.\r\n")
              ∷ (pos 4, codes "Bob\n")
              ∷ (pos 4, codes "Hello,\n")
              ∷ (pos 4, codes "DATA\n")
              ∷ (pos 4, codes "RCPT TO:<bob@b.org>\n")
              ∷ (pos 4, codes "MAIL FROM: <ann@a.org>\n")
              ∷ [];
          renamed = (codes "/m/new/1.mbox", codes "/m/cur/1.mbox") ∷ [];
          saved = some [];
        },
        s1,
      ))
mail_is_sent_example =
    mail_is_sent os (pos 4) domain world sockets fine fine fine fine (codes "/m/new/1.mbox") []
      (codes "/m/cur/1.mbox") content (codes "ann@a.org") (codes "bob@b.org")
      (codes "Hello," ∷ codes "Bob" ∷ []) (λ log fd text. refl)
      (fine-IsFine, fine-IsFine, fine-IsFine, fine-IsFine) content_read moved lines-content
      (omega arith, omega arith, (omega arith, (omega arith, tt)))

abbrev other_content : Bytes
other_content = codes "cat@c.org\ndan@d.org\nHi\n"

lines-other : lines other_content ≡ codes "cat@c.org" ∷ codes "dan@d.org" ∷ codes "Hi" ∷ []
unfolding words fields
lines-other = refl

interleaved_recipient_example :
    interleaved os (pos 4) content (pos 5) other_content world
    ≡ ok (
        (pos 4, codes "RCPT TO:<dan@d.org>\n")
        ∷ (pos 5, codes "MAIL FROM: <cat@c.org>\n")
        ∷ (pos 4, codes "MAIL FROM: <ann@a.org>\n")
        ∷ [])
interleaved_recipient_example =
    interleaved_recipient os (pos 4) (pos 5) content other_content (codes "ann@a.org")
      (codes "cat@c.org") (codes "dan@d.org")
      (codes "bob@b.org" ∷ codes "Hello," ∷ codes "Bob" ∷ []) (codes "Hi" ∷ []) world
      (λ log fd text. refl) lines-content lines-other (omega arith, omega arith, omega arith)

open_connection_lem_example :
    ((d1 : Domain) × (s1 : Sockets) × (open_connection
          (pos 4)
          fine
          (in_state st_init domain)
          sockets
        ≡ ok (in_state st_send_helo d1, s1)))
    × ((d1 : Domain) × (s1 : Sockets) × (open_connection
            (pos 4)
            fine
            (in_state st_done domain)
            sockets
          ≡ ok (in_state st_connect d1, s1))
        × (send_msg_to_server os (in_state st_connect d1) world
            ≡ ok (pos 0, in_state st_connect d1, world)))
    × (init_mail_domain_conn_settings (neg 1) (in_state st_init domain) sockets
        ≡ ok (in_state st_done domain, sockets))
    × (init_mail_domain_conn_settings (neg 1) (in_state st_done domain) sockets
        ≡ ok (in_state st_done domain, sockets))
open_connection_lem_example = open_connection_lem os world 4 fine domain sockets fine-IsFine

abbrev empty_sets : Sockets
empty_sets = record { read_fds = []; write_fds = []; except_fds = []; closed_fds = [] }

-- A domain in the initial state, and with its first connection.
abbrev connecting : Domain
connecting = record domain { state = st_init }

abbrev connected : Domain
connected = record domain { state = st_connect; socket_fd = pos 4 }

abbrev first_sets : Sockets
first_sets = record {
  read_fds = pos 4 ∷ [];
  write_fds = [];
  except_fds = pos 4 ∷ [];
  closed_fds = [];
}

connected_run :
    init_mail_domain_conn_settings (pos 4) connecting empty_sets ≡ ok (connected, first_sets)
unfolding init_mail_domain_conn_settings client_fsm_step
connected_run = refl

client_never_waits_example :
    Returns
      (λ p. send_msg_to_server os p.0 p.1 ≡ send_for_state os p.0 p.1)
      (act_all
        (reads (codes "220 ready\r\n" ∷ []) failed ∷ writes os ∷ [])
        (connected, world, first_sets))
client_never_waits_example =
    client_never_waits (pos 4) connecting connected empty_sets first_sets world
      (reads (codes "220 ready\r\n" ∷ []) failed ∷ writes os ∷ []) os refl connected_run
