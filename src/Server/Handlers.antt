-- ===== src/Server/Handlers.antt =====
-- The handlers `process_helo` to `process_quit` of smtp_proj/server/src/protocol.c, and the table
-- `process_bind`.
use pvs_course_project.Base.{
  ◌-◌, [], ◌∷◌, ◌++◌, Option, none, some, Bytes, codes, length, drop, str_eq, strcpy, strcat, Run,
  ok, fault, null_pointer, overrun, underrun, require, ◌>>=◌, ◌>>◌, leb, if◌then◌else◌,
}
use pvs_course_project.Server.Fsm.{
  ServerState, ready, process_helo, process_ehlo, process_quit, process_vrfy, process_rset,
  process_mail, process_rcpt, process_data, process_data_recv, process_data_end, invalid, done,
  ServerEvent, okay, err, data_end,
}
use pvs_course_project.Server.Pattern.{Pcre, Patterns, pattern_email}
use pvs_course_project.Server.Letter.{
  Letter, LetterPointer, live, deref, letter_create, letter_free, field_size, body_size,
}
use pvs_course_project.Server.Maildir.{
  Disk, Host, usr_local, maildir_ensure_user, maildir_get_fname,
}
use pvs_course_project.Server.Conn.{Conn}
use pvs_course_project.Server.Protocol

abbrev pub crlf : Bytes
crlf = codes "\r\n"

-- The text that ends a mail.
abbrev pub ending : Bytes
ending = codes "\r\n.\r\n"

-- `strcat(body, data); strcat(body, "\r\n");`
unfoldable pub add_line : Letter → Bytes → Run Letter
add_line letter given = do
  text ← strcat body_size letter.body given
  body ← strcat body_size text crlf
  ok (record letter { body = body })

-- `if (data != NULL && strlen(data))` with what it guards.
abbrev pub add_rest : LetterPointer → Option Bytes → Run LetterPointer
add_rest pointer none = ok pointer
add_rest pointer (some []) = ok pointer
add_rest pointer (some (c ∷ s)) = do
  letter ← deref pointer
  longer ← add_line letter (c ∷ s)
  ok (live longer)

-- What is written for a letter.
abbrev pub mail_text : Letter → Bytes
mail_text letter =
    letter.mail_from ++ codes "\n" ++ letter.rcpt_to ++ codes "\n" ++ letter.body ++ codes "\n"

module _ (server_step : ServerState → ServerEvent → Option ServerState) (pcre : Pcre)
    (patterns : Patterns) (host : Host) where
  unfoldable pub helo_handler : Conn → Disk → Option Bytes → Run (Conn × Disk)
  unfolding Protocol.advance
  helo_handler conn disk given = do
    next ← Protocol.advance server_step conn okay
    ok (Protocol.say Protocol.response_250_host next, disk)

  unfoldable pub ehlo_handler : Conn → Disk → Option Bytes → Run (Conn × Disk)
  unfolding Protocol.advance
  ehlo_handler conn disk given = do
    next ← Protocol.advance server_step conn okay
    ok (Protocol.say Protocol.response_250_host next, disk)

  unfoldable pub mail_handler : Conn → Disk → Option Bytes → Run (Conn × Disk)
  unfolding Protocol.advance letter_create
  mail_handler conn disk none = do
    next ← Protocol.advance server_step conn err
    ok (Protocol.say Protocol.response_451 next, disk)
  mail_handler conn disk (some given) = do
    next ← Protocol.advance server_step conn okay
    let letter = record letter_create { mail_from = given }
    ok (Protocol.say Protocol.response_250 (record next { letter = live letter }), disk)

  unfoldable pub rcpt_handler : Conn → Disk → Option Bytes → Run (Conn × Disk)
  unfolding Protocol.advance pattern_email
  rcpt_handler conn disk none = do
    next ← Protocol.advance server_step conn err
    ok (Protocol.say Protocol.response_501 next, disk)
  rcpt_handler conn disk (some given) = do
    next ← Protocol.advance server_step conn okay
    letter ← deref next.letter
    rcpt_to ← strcpy field_size given
    (name, host_name) ← Protocol.deref_pair (pattern_email pcre patterns given)
    username ← strcpy field_size name
    domain ← strcpy field_size host_name
    let filled = record letter { rcpt_to = rcpt_to; rcpt_username = username; rcpt_domain = domain }
    ok (Protocol.say Protocol.response_250 (record next { letter = live filled }), disk)

  unfoldable pub data_handler : Conn → Disk → Option Bytes → Run (Conn × Disk)
  unfolding Protocol.advance
  data_handler conn disk given = do
    next ← Protocol.advance server_step conn okay
    ok (Protocol.say Protocol.response_354 next, disk)

  -- The part of process_data_end from the first `fprintf` on.
  unfoldable pub store_mail : Conn → Letter → Bytes → Disk → Run (Conn × Disk)
  unfolding Protocol.advance letter_free
  store_mail conn letter filename disk = do
    freed ← letter_free conn.letter
    next ←
        Protocol.advance server_step
          (Protocol.say Protocol.response_250_saved (record conn { letter = freed })) okay
    ok (next, record disk { files = (filename, mail_text letter) ∷ disk.files })

  unfoldable pub data_end_handler : Conn → Disk → Option Bytes → Run (Conn × Disk)
  unfolding add_line maildir_ensure_user maildir_get_fname store_mail
  data_end_handler conn disk given = do
    pointer ← add_rest conn.letter given
    letter ← deref pointer
    let made = maildir_ensure_user host disk letter.rcpt_username usr_local
    filename ← maildir_get_fname host letter.rcpt_username letter.rcpt_domain
    let kept = record conn { letter = pointer }
    let stored = store_mail kept letter filename made
    if host.fopen filename
        then stored
        else ok (Protocol.say Protocol.response_554 (record kept { state = ready }), made)

  -- The two ways on of process_data_recv: the text ends the mail, or it is a part of the body.
  unfoldable pub end_mail : Conn → Disk → Bytes → Run (Conn × Disk)
  unfolding Protocol.advance data_end_handler
  end_mail conn disk text = do
    next ← Protocol.advance server_step (record conn { old_state = conn.state }) okay
    last ← Protocol.advance server_step next data_end
    data_end_handler last disk (some text)

  unfoldable pub add_to_mail : Conn → Disk → Bytes → Run (Conn × Disk)
  unfolding Protocol.advance add_line
  add_to_mail conn disk text = do
    letter ← deref conn.letter
    longer ← add_line letter text
    next ← Protocol.advance server_step (record conn { letter = live longer }) okay
    ok (next, disk)

  -- `&data[strlen(data) - 5]` lies before the text if that is shorter than five bytes.
  unfoldable pub data_recv_handler : Conn → Disk → Option Bytes → Run (Conn × Disk)
  unfolding end_mail add_to_mail
  data_recv_handler conn disk none = fault null_pointer
  data_recv_handler conn disk (some text) = do
    require (leb 5 (length text)) underrun
    if str_eq (drop (length text - 5) text) ending
        then end_mail conn disk text
        else add_to_mail conn disk text

  unfoldable pub rset_handler : Conn → Disk → Option Bytes → Run (Conn × Disk)
  unfolding Protocol.advance letter_free
  rset_handler conn disk given = do
    freed ← letter_free conn.letter
    next ← Protocol.advance server_step (record conn { letter = freed }) okay
    ok (Protocol.say Protocol.response_250 next, disk)

  unfoldable pub vrfy_handler : Conn → Disk → Option Bytes → Run (Conn × Disk)
  vrfy_handler conn disk given =
      ok (Protocol.say Protocol.response_502 (record conn { state = conn.old_state }), disk)

  unfoldable pub quit_handler : Conn → Disk → Option Bytes → Run (Conn × Disk)
  unfolding Protocol.advance
  quit_handler conn disk given = do
    next ← Protocol.advance server_step conn okay
    ok (Protocol.say Protocol.response_221 next, disk)

  -- `process_bind[state](conn, data)`. The table has an entry for each state but the terminal ones;
  -- those that `protocol_init` leaves out are null.
  unfoldable pub process_bind : ServerState → Conn → Disk → Option Bytes → Run (Conn × Disk)
  unfolding helo_handler ehlo_handler mail_handler rcpt_handler data_handler data_end_handler
      data_recv_handler vrfy_handler rset_handler quit_handler
  process_bind process_helo conn disk given = helo_handler conn disk given
  process_bind process_ehlo conn disk given = ehlo_handler conn disk given
  process_bind process_mail conn disk given = mail_handler conn disk given
  process_bind process_rcpt conn disk given = rcpt_handler conn disk given
  process_bind process_data conn disk given = data_handler conn disk given
  process_bind process_data_end conn disk given = data_end_handler conn disk given
  process_bind process_data_recv conn disk given = data_recv_handler conn disk given
  process_bind process_vrfy conn disk given = vrfy_handler conn disk given
  process_bind process_rset conn disk given = rset_handler conn disk given
  process_bind process_quit conn disk given = quit_handler conn disk given
  process_bind invalid conn disk given = fault overrun
  process_bind done conn disk given = fault overrun
  process_bind _ conn disk given = fault null_pointer
