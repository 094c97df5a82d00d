-- ===== src/Tests/Server.antt =====
-- A session of smtp_proj/server on concrete texts, with a stand-in for pcre that knows the commands.
use pvs_course_project.Base.{
  ◌≡◌, refl, ℕ, List, [], ◌∷◌, ◌++◌, Option, some, none, Bool, true, String, Bytes, codes, drop,
  str_eq, ok, fault, exited, null_pointer, wild_pointer, underrun, arith, if◌then◌else◌,
}
use pvs_course_project.Common.Replace.{starts_with}
use pvs_course_project.Common.Strtok.{token, after}
use pvs_course_project.Server.Fsm.{
  init, ready, expect_mail, expect_rcpt, expect_data_recv, table_step, table_step-IsAutoFsm,
}
use pvs_course_project.Server.Pattern.{
  PatternType, pt_rset, pt_helo, pt_mail, pt_rcpt, pt_data, pt_data_end, pt_data_recv, pt_email,
  pattern_text, Pcre, Patterns, pattern_email, pattern_compute,
}
use pvs_course_project.Server.Stopwatch.{stopwatch_watch}
use pvs_course_project.Server.Letter.{Letter, live, wild}
use pvs_course_project.Server.Maildir.{
  Disk, Host, usr_local, maildir_base, ◌/-◌, mbox_name, maildir_get_fname,
}
use pvs_course_project.Server.Conn.{Conn, Slot, used, null}
use pvs_course_project.Server.Protocol.{response_250_saved, classify}
use pvs_course_project.Server.Update.{Tick, serve_command}
use pvs_course_project.Server.Update.Order.{working}
use pvs_course_project.Server.Handlers.{helo_handler}
use pvs_course_project.Server.Update.Command.{serve_command_refused, serve_command_handled}
use pvs_course_project.Server.Session.{converse}
use pvs_course_project.Server.Session.Plain.{after_plain, serve_command_plain}
use pvs_course_project.Server.Session.Body.{body_of}
use pvs_course_project.Server.Session.Delivery.{IsMail, mail_is_stored}
use pvs_course_project.Server.Session.Faults.{
  serve_command_rset, serve_command_no_address, serve_command_short_text,
}

abbrev is_for : String → PatternType → Bool
is_for re type = str_eq (codes re) (codes (pattern_text type))

abbrev argument : Bytes → ℕ → Bytes → Option (List Bytes)
argument word n buf = if starts_with buf word then some (buf ∷ drop n buf ∷ []) else none

abbrev address : Bytes → Option (List Bytes)
address buf = elim (after b'@' buf) [
  | [] ↦ none
  | c ∷ s ↦ some (buf ∷ token b'@' buf ∷ (c ∷ s) ∷ [])
]

-- The texts that the commands match, as far as the session below needs them.
abbrev pcre : Pcre
pcre = record {
  compiles = λ re. true;
  exec = λ re buf.
      if is_for re pt_helo
      then argument (codes "HELO ") 5 buf
      else (if is_for re pt_mail
          then argument (codes "MAIL FROM:") 10 buf
          else (if is_for re pt_rcpt
              then argument (codes "RCPT TO:") 8 buf
              else (if is_for re pt_data
                  then (if str_eq buf (codes "DATA") then some (buf ∷ []) else none)
                  else (if is_for re pt_data_end
                      then (if str_eq buf (codes ".") then some (buf ∷ []) else none)
                      else (if is_for re pt_data_recv
                          then some (buf ∷ buf ∷ [])
                          else (if is_for re pt_email then address buf else none))))));
}

abbrev patterns : Patterns
patterns type = some (pattern_text type)

abbrev host : Host
host = record {
  maildir = codes "/m";
  mkdir = λ dir. true;
  fopen = λ path. true;
  pid = 7;
  now = record { tv_sec = 1; tv_usec = 0 };
}

abbrev tick : Tick
tick = record {
  host = host;
  started = record { tv_sec = 1; tv_usec = 0 };
  watched = record { tv_sec = 2; tv_usec = 0 };
}

abbrev disk : Disk
disk = record { dirs = []; files = [] }

abbrev conn : Conn
conn = record {
  send_buf = [];
  recv_buf = [];
  state = expect_mail;
  old_state = init;
  letter = wild;
  watch = record { tv_sec = 1; tv_usec = 0 };
}

abbrev body : List (Tick × Bytes)
body = (tick, codes "Hello,") ∷ []

abbrev stored_name : Bytes
stored_name =
    ((maildir_base host usr_local /- codes "bob") /- codes "new") /- mbox_name host (codes "b.org")

texts-IsMail :
    IsMail pcre patterns
      (tick, codes "MAIL FROM:ann@a.org")
      (tick, codes "RCPT TO:bob@b.org")
      (tick, codes "DATA")
      (tick, codes ".")
      body
      (codes "ann@a.org")
      (codes "bob@b.org")
      (codes "bob")
      (codes "b.org")
      stored_name
unfolding classify pattern_compute pattern_email str_eq starts_with stopwatch_watch
    maildir_get_fname token after
texts-IsMail = record {
  timely = (refl, refl, refl, refl);
  not_empty = (refl, refl, refl, refl);
  mail_known = refl;
  rcpt_known = refl;
  begin_known = refl;
  end_known = refl;
  address = refl;
  address_fits = (omega arith, omega arith, omega arith);
  body_known = ((refl, refl, omega arith, refl), tt);
  body_fits = omega arith;
  filed = refl;
  opened = refl;
}

mail_is_stored_example :
    (final : Conn) × (written : Disk) × (converse table_step pcre patterns
        ((tick, codes "MAIL FROM:ann@a.org")
          ∷ (tick, codes "RCPT TO:bob@b.org")
          ∷ (tick, codes "DATA")
          ∷ (body ++ (tick, codes ".") ∷ []))
        conn
        disk
      ≡ ok (final, written))
    × (final.state ≡ expect_mail)
    × (final.send_buf ≡ response_250_saved)
    × (written.files
        ≡ (
          stored_name,
          codes "ann@a.org"
              ++ codes "\n"
              ++ codes "bob@b.org"
              ++ codes "\n"
              ++ body_of body
              ++ codes "\n",
        )
          ∷ [])
mail_is_stored_example =
    mail_is_stored pcre patterns (tick, codes "MAIL FROM:ann@a.org")
      (tick, codes "RCPT TO:bob@b.org") (tick, codes "DATA") (tick, codes ".") body
      (codes "ann@a.org") (codes "bob@b.org") (codes "bob") (codes "b.org") stored_name texts-IsMail
      table_step table_step-IsAutoFsm conn disk refl

abbrev table : List Slot
table = null ∷ used (record conn { recv_buf = codes "MAIL FROM:ann@a.org" }) ∷ []

abbrev greeted : Conn
greeted = record conn { state = ready }

-- MAIL before HELO.
serve_command_refused_example :
    serve_command table_step pcre patterns host greeted disk pt_mail (some (codes "ann@a.org"))
    ≡ exited 1
serve_command_refused_example =
    serve_command_refused table_step table_step-IsAutoFsm pcre patterns host greeted disk pt_mail
      (some (codes "ann@a.org")) refl refl refl

serve_command_handled_example :
    serve_command table_step pcre patterns host greeted disk pt_helo (some (codes "home"))
    ≡ helo_handler table_step pcre patterns host
        (record greeted { old_state = ready; state = working pt_helo })
        disk
        (some (codes "home"))
serve_command_handled_example =
    serve_command_handled table_step table_step-IsAutoFsm pcre patterns host greeted disk pt_helo
      (some (codes "home")) refl refl refl

serve_command_plain_example :
    serve_command table_step pcre patterns host greeted disk pt_helo (some (codes "home"))
    ≡ ok (after_plain greeted pt_helo (some (codes "home")), disk)
serve_command_plain_example =
    serve_command_plain table_step table_step-IsAutoFsm pcre patterns host greeted disk pt_helo
      (some (codes "home")) refl refl refl

serve_command_rset_example :
    serve_command table_step pcre patterns host greeted disk pt_rset none ≡ fault wild_pointer
serve_command_rset_example =
    serve_command_rset table_step table_step-IsAutoFsm pcre patterns host greeted disk none refl

abbrev letter : Letter
letter = record {
  mail_from = codes "ann@a.org";
  rcpt_to = [];
  rcpt_username = [];
  rcpt_domain = [];
  body = [];
}

abbrev begun : Conn
begun = record conn { state = expect_rcpt; letter = live letter }

no_address_run : pattern_email pcre patterns (codes "bob") ≡ none
unfolding pattern_email str_eq after
no_address_run = refl

serve_command_no_address_example :
    serve_command table_step pcre patterns host begun disk pt_rcpt (some (codes "bob"))
    ≡ fault null_pointer
serve_command_no_address_example =
    serve_command_no_address table_step table_step-IsAutoFsm pcre patterns host begun disk none
      letter (codes "bob") refl refl (omega arith) no_address_run

abbrev reading : Conn
reading = record conn { state = expect_data_recv; letter = live letter; recv_buf = codes "Hi" }

serve_command_short_text_example :
    serve_command table_step pcre patterns host reading disk pt_data_recv (some (codes "Hi"))
    ≡ fault underrun
serve_command_short_text_example =
    serve_command_short_text table_step table_step-IsAutoFsm pcre patterns host reading disk
      (some (codes "Hi")) refl (omega arith)
