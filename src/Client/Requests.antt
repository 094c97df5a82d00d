-- ===== src/Client/Requests.antt =====
-- What the client sends: the `send_…` functions and `send_msg_to_server` of
-- smtp_proj/client/src/smtp_client.c, `read_msg_file` of smtp_proj/client/src/msg.c, and
-- `struct mail_domain_dscrptr` of smtp_proj/client/include/map.h without its address, and without
-- `mails_count`, which nothing uses. `none` is the null pointer; the log messages are left out.
pub mod Lines
pub mod Sending
pub mod Clash
use pvs_course_project.Base.{
  ℕ, zero, suc, ◌+◌, Bool, true, false, ◌&&◌, not, List, [], ◌∷◌, ◌++◌, Option, none, some, Bytes,
  codes, length, Run, ok, fault, exited, null_pointer, wild_pointer, strcpy, strcat, require,
  signed_overflow, ◌>>=◌, ◌>>◌, ltb, if◌then◌else◌,
}
use pvs_course_project.Base.Int.{
  ℤ, to_int, is_int, pos, neg, negsuc, ltb_ℤ, sub_ℕ, pos_part, neg_part,
}
use pvs_course_project.Common.Strtok.{strtok}
use pvs_course_project.Common.Replace.{str_replace}
use pvs_course_project.Client.MailList.{Nodes}
use pvs_course_project.Client.Response.{c_str, max_buf_len}
use pvs_course_project.Client.Fsm.{
  State, st_init, st_send_helo, st_send_mail_from, st_send_rcpt_to, st_send_data, st_send_body,
  st_send_quit, st_connect, st_invalid, st_done,
}

pub record Domain : Type 0 where
  pub domain : Bytes
  pub socket_fd : ℤ
  pub mails_list : Nodes
  pub state : State
  pub buffer : Option Bytes
  pub retry_time : ℤ
  pub total_send_time : ℤ
  pub number_of_attempts : ℤ
  pub last_attempt_time : ℤ
  pub can_be_send : ℤ
  pub curr_rcpts_index : ℤ
  pub request_buf : Bytes

-- What is outside the descriptors: the texts written to sockets, newest first, the renamings asked
-- for, newest first, and the pointer that `strtok` keeps between its calls, of which the process has
-- one.
pub record World : Type 0 where
  pub sent : List (ℤ × Bytes)
  pub renamed : List (Bytes × Bytes)
  pub saved : Option Bytes

-- The operating system: whether a `write` gets through, given what has been written, the name of the
-- host, the files, given what has been renamed, and the seconds of the clock.
pub record Os : Type 0 where
  pub accepts : List (ℤ × Bytes) → ℤ → Bytes → Bool
  pub host_name : Bytes
  pub files : List (Bytes × Bytes) → Bytes → Option Bytes
  pub now : ℤ

abbrev pub line_feed : ℕ
line_feed = 10

abbrev cut_token : Option (Bytes × Bytes) → World → Run (Option Bytes × World)
cut_token none world = ok (none, record world { saved = some [] })
cut_token (some (token, rest)) world = ok (some token, record world { saved = some rest })

-- `strtok(msg, "\n")`; where `msg` is null it goes on with the text that it kept.
unfoldable pub next_token : Option Bytes → World → Run (Option Bytes × World)
unfolding strtok
next_token (some msg) world = cut_token (strtok line_feed msg) world
next_token none world = elim world.saved [
  | none ↦ fault null_pointer
  | some rest ↦ cut_token (strtok line_feed rest) world
]

-- `strcat(request_buf, token)`
abbrev deref : Option Bytes → Run Bytes
deref none = fault null_pointer
deref (some text) = ok text

-- An empty file is not an item that `fread` reads.
unfoldable pub read_msg_file : Os → World → Bytes → Run (Option Bytes)
read_msg_file os world email_path = elim (os.files world.renamed email_path) [
  | none ↦ ok none
  | some [] ↦ exited 1
  | some (c ∷ bs) ↦ ok (some (c_str (c ∷ bs)))
]

abbrev sub_ℤ : ℤ → ℤ → ℤ
sub_ℤ a b = sub_ℕ (pos_part a + neg_part b) (pos_part b + neg_part a)

abbrev leb_ℤ : ℤ → ℤ → Bool
leb_ℤ a b = not (ltb_ℤ b a)

abbrev is_zero : ℤ → Bool
is_zero (pos zero) = true
is_zero _ = false

-- The text of the first mail of the list.
abbrev pub head_val : Nodes → Run Bytes
head_val [] = fault null_pointer
head_val (none ∷ next) = fault wild_pointer
head_val (some val ∷ next) = ok val

module _ (os : Os) where
  -- A write that is cut short counts as sent.
  unfoldable pub send_data : Bytes → ℤ → World → ℤ × World
  send_data text fd world =
      if os.accepts world.sent fd text
      then (pos 0, record world { sent = (fd, text) ∷ world.sent })
      else (neg 1, world)

  -- A sender gives back the return value, `request_buf` and the world.
  abbrev Sent : Type 0
  Sent = Run (ℤ × Bytes × World)

  abbrev send_buf : Bytes → ℤ → World → Sent
  send_buf buf fd world = let (code, after) = send_data buf fd world in ok (code, buf, after)

  unfoldable pub send_helo : ℤ → World → Sent
  unfolding send_data
  send_helo fd world = do
    buf ← strcat max_buf_len (codes "HELO ") os.host_name
    full ← strcat max_buf_len buf (codes "\n")
    send_buf full fd world

  unfoldable pub send_mail_from : ℤ → Option Bytes → World → Sent
  unfolding send_data next_token
  send_mail_from fd msg world = do
    (token, world1) ← next_token msg world
    text ← deref token
    buf ← strcat max_buf_len (codes "MAIL FROM: <") text
    full ← strcat max_buf_len buf (codes ">\n")
    send_buf full fd world1

  -- The recipient is what `strtok` gives next; the parameter `msg` is not used.
  unfoldable pub send_rcpt_to : ℤ → World → Sent
  unfolding send_data next_token
  send_rcpt_to fd world = do
    (token, world1) ← next_token none world
    text ← deref token
    buf ← strcat max_buf_len (codes "RCPT TO:<") text
    full ← strcat max_buf_len buf (codes ">\n")
    send_buf full fd world1

  unfoldable pub send_data_msg : ℤ → World → Sent
  unfolding send_data
  send_data_msg fd world = send_buf (codes "DATA\n") fd world

  -- `while (token != NULL)`, with fuel; the results of `send_data` are not read.
  unfoldable pub send_lines : ℕ → Option Bytes → ℤ → World → Run World
  unfolding send_data next_token
  send_lines fuel none fd world = ok world
  send_lines zero (some token) fd world = Run.diverged
  send_lines (suc fuel) (some token) fd world = do
    buf ← strcat max_buf_len token (codes "\n")
    let (code, world1) = send_data buf fd world
    (next, world2) ← next_token none world1
    send_lines fuel next fd world2

  abbrev kept : World → Bytes
  kept world = elim world.saved [ none ↦ [] | some rest ↦ rest ]

  -- Each turn of the loop takes at least one byte of the text that is kept.
  unfoldable pub send_msg_body : ℤ → World → Sent
  send_msg_body fd world = do
    (token, world1) ← next_token none world
    world2 ← send_lines (suc (length (kept world1))) token fd world1
    let (code, world3) = send_data (codes "\r\n.\r\n") fd world2
    ok (code, [], world3)

  unfoldable pub send_quit : ℤ → World → Sent
  unfolding send_data
  send_quit fd world = send_buf (codes "QUIT\n") fd world

  abbrev pub store : Domain → ℤ × Bytes × World → Run (ℤ × Domain × World)
  store d (code, buf, world) = ok (code, record d { request_buf = buf }, world)

  abbrev pub send_first : Domain → World → Run (ℤ × Domain × World)
  send_first d world = do
    val ← head_val d.mails_list
    buffer ← read_msg_file os world val
    email_new_name ← str_replace val (codes "new") (codes "cur")
    sent ←
        send_mail_from d.socket_fd buffer
          (record world { renamed = (val, email_new_name) ∷ world.renamed })
    store (record d { buffer = buffer }) sent

  -- The `switch` on the state.
  unfoldable pub send_for_state : Domain → World → Run (ℤ × Domain × World)
  unfolding send_helo send_mail_from send_rcpt_to send_data_msg send_msg_body send_quit
      read_msg_file
  send_for_state d world = elim d.state [
    | st_send_helo ↦ send_helo d.socket_fd world >>= store d
    | st_send_mail_from ↦ send_first d world
    | st_send_rcpt_to ↦ send_rcpt_to d.socket_fd world >>= store d
    | st_send_data ↦ send_data_msg d.socket_fd world >>= store d
    | st_send_body ↦ send_msg_body d.socket_fd world >>= store d
    | st_send_quit ↦ send_quit d.socket_fd world >>= store d
    | _ ↦ ok (pos 0, d, world)
  ]

  -- The seconds of the clock are cut to an `int`; a difference that is no `int` is undefined.
  -- The total time is compared with itself.
  unfoldable pub send_msg_to_server : Domain → World → Run (ℤ × Domain × World)
  unfolding send_for_state
  send_msg_to_server d world =
      if is_zero d.last_attempt_time
      then send_for_state d world
      else (let send_time = sub_ℤ (to_int os.now) d.last_attempt_time in
          require (is_int send_time) signed_overflow
          >> (if leb_ℤ d.retry_time send_time && leb_ℤ d.total_send_time d.total_send_time
              then send_for_state (record d { can_be_send = pos 1 }) world
              else (if ltb_ℤ d.total_send_time d.total_send_time
                  then ok (neg 3, record d { can_be_send = neg 1 }, world)
                  else ok (neg 2, d, world))))
