-- ===== src/Client/Response.antt =====
-- The replies of a mail server, smtp_proj/client/src/smtp_client.c: `read_data_from_server` and
-- `check_server_code`, with `atoi` of the C library for the three bytes of a reply code. `none` is
-- the null pointer.
pub mod Reading
pub mod Codes
use pvs_course_project.Base.{
  ℕ, zero, suc, ◌+◌, ◌-◌, ◌*◌, Bool, true, false, ◌&&◌, ◌||◌, not, List, [], ◌∷◌, ◌++◌, Option,
  none, some, Bytes, codes, length, take, Run, ok, fault, null_pointer, strcat, ◌>>=◌, ltb, leb,
  ◌==◌, if◌then◌else◌,
}
use pvs_course_project.Base.Int.{ℤ, pos, neg, ltb_ℤ}
use pvs_course_project.Common.Replace.{strstr}
use pvs_course_project.Client.Fsm.{Event, ev_ok, ev_error, ev_command_not_implemented}

-- How the calls of `recv` on the socket end: the server has closed it, or -1, which is also what a
-- non-blocking socket gives where there is nothing to read yet.
pub data Ending : Type 0 where
  closed failed : Ending

abbrev pub max_buf_len : ℕ
max_buf_len = 1024

-- The text of a buffer that was zeroed before `recv`: the bytes before the first NUL.
abbrev pub c_str : Bytes → Bytes
c_str [] = []
c_str (zero ∷ bs) = []
c_str (suc c ∷ bs) = suc c ∷ c_str bs

abbrev pub is_found : Option (Bytes × Bytes) → Bool
is_found none = false
is_found (some _) = true

abbrev pub crlf : Bytes
crlf = 13 ∷ 10 ∷ []

abbrev pub has_crlf : Bytes → Bool
has_crlf msg = is_found (strstr msg crlf)

-- `if (nread < 0) return NULL; return msg;`
abbrev pub answer : Ending → Bytes → Option Bytes
answer closed msg = some msg
answer failed msg = none

-- The loop. `size` is `msg_size`, `cap` the size of the block that `msg` points to; each element of
-- the list is what one `recv` stores.
unfoldable pub read_from : Ending → Bytes → ℕ → ℕ → ℕ → List Bytes → Run (Option Bytes)
unfolding strstr
read_from ending msg read size cap [] = ok (answer ending msg)
read_from ending msg read size cap ([] ∷ chunks) = ok (some msg)
read_from ending msg read size cap ((c ∷ bs) ∷ chunks) =
    let chunk = c ∷ bs in
    if ltb max_buf_len (length chunk)
    then ok (some msg)
    else let total = read + length chunk in
      let size' = if ltb total size then size else total in
      let cap' = if ltb total size then cap else total + 1 in
      strcat cap' msg (c_str chunk) >>= λ joined.
      (let rest = read_from ending joined total size' cap' chunks in
        if has_crlf joined then ok (some joined) else rest)

unfoldable pub read_data_from_server : List Bytes → Ending → Run (Option Bytes)
unfolding read_from
read_data_from_server chunks ending = read_from ending [] 0 max_buf_len max_buf_len chunks

abbrev is_space : ℕ → Bool
is_space c = (c == 32) || (leb 9 c && leb c 13)

abbrev is_digit : ℕ → Bool
is_digit c = leb 48 c && leb c 57

digits : ℕ → Bytes → ℕ
digits acc [] = acc
digits acc (c ∷ cs) = let rest = digits (acc * 10 + (c - 48)) cs in if is_digit c then rest else acc

signed : Bytes → ℤ
unfolding digits
signed [] = pos 0
signed (c ∷ cs) =
    if c == 45
    then neg (digits 0 cs)
    else if c == 43
    then pos (digits 0 cs)
    else pos (digits 0 (c ∷ cs))

unfoldable pub atoi : Bytes → ℤ
unfolding signed
atoi [] = pos 0
atoi (c ∷ cs) = let rest = atoi cs in if is_space c then rest else signed (c ∷ cs)

abbrev eq_ℤ : ℤ → ℕ → Bool
eq_ℤ a n = not (ltb_ℤ a (pos n)) && not (ltb_ℤ (pos n) a)

-- The tests on the code and on the text of the reply.
abbrev pub event_of : ℤ → Bool → Event
event_of code not_implemented =
    if ltb_ℤ code (pos 200) || (ltb_ℤ (pos 300) code && not (eq_ℤ code 354))
    then (if eq_ℤ code 502 && not_implemented then ev_command_not_implemented else ev_error)
    else ev_ok

-- The reply stands in a zeroed block of at least 1024 bytes, so that `memcpy` can read three of them.
unfoldable pub check_server_code : Option Bytes → Run Event
unfolding atoi strstr
check_server_code none = fault null_pointer
check_server_code (some response) =
    ok (event_of (atoi (take 3 response)) (is_found (strstr response (codes "not implemented"))))
