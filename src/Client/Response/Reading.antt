-- ===== src/Client/Response/Reading.antt =====
-- `read_data_from_server` of smtp_proj/client/src/smtp_client.c: no block that it writes is too small,
-- and what it returns.
use pvs_course_project.Base.{
  ℕ, zero, suc, ◌+◌, ◌≤◌, ◌<◌, ◌≡◌, refl, List, [], ◌∷◌, ◌++◌, Option, some, Bytes, length,
  length-append, ok, strcat, strcpy_fits, ltb, if◌then◌else◌, arith, All, Lacks,
}
use pvs_course_project.Client.Response.{
  Ending, max_buf_len, c_str, has_crlf, answer, read_from, read_data_from_server,
}

-- What a reply is, without the buffers: the bytes received up to the end of the first `recv` after
-- which they contain CR LF.
abbrev pub reply : Ending → Bytes → List Bytes → Option Bytes
reply ending msg [] = answer ending msg
reply ending msg (chunk ∷ chunks) =
    let rest = reply ending (msg ++ chunk) chunks in
    if has_crlf (msg ++ chunk) then some (msg ++ chunk) else rest

-- What a `recv` of at most 1023 bytes stores, where the server sends no NUL.
abbrev pub IsChunk : Bytes → Type 0
IsChunk chunk = (0 < length chunk) × (length chunk < max_buf_len) × Lacks 0 chunk

c_str_lem : (chunk : Bytes) → Lacks 0 chunk → c_str chunk ≡ chunk
c_str_lem [] h = refl
c_str_lem (zero ∷ bs) (h, hs) = absurd (h refl)
c_str_lem (suc c ∷ bs) (h, hs) = rw (c_str_lem bs hs)

-- The block has room for the bytes of one more `recv`.
joined_lem :
    (read size room : ℕ) (msg chunk : Bytes)
    → length msg ≤ read
    → size ≤ room
    → Lacks 0 chunk
    → strcat
        (if ltb (read + length chunk) size then room else read + length chunk + 1)
        msg
        (c_str chunk)
      ≡ ok (msg ++ chunk)
joined_lem read size room msg chunk h k text =
    rw (c_str_lem chunk text)
      (strcpy_fits _ (msg ++ chunk) (ground (arith, length-append msg chunk)))

read_from_lem :
    (ending : Ending) (msg : Bytes) (read size room : ℕ) (chunks : List Bytes)
    → length msg ≤ read
    → size ≤ room
    → All IsChunk chunks
    → read_from ending msg read size room chunks ≡ ok (reply ending msg chunks)
unfolding read_from
read_from_lem ending msg read size room [] h k all = refl
read_from_lem ending msg read size room ([] ∷ chunks) h k ((some_bytes, _, _), all) =
    absurd (omega (arith, some_bytes))
read_from_lem ending msg read size room ((c ∷ bs) ∷ chunks) h k ((_, short, text), all) =
    let chunk = c ∷ bs in
    let total = read + length chunk in
    let later =
      read_from_lem ending (msg ++ chunk) total (if ltb total size then size else total)
        (if ltb total size then room else total + 1) chunks
        (ground (arith, length-append msg chunk)) (ground arith) all in
    ground (arith, later, joined_lem read size room msg chunk h k text, short)

-- Where each `recv` stores at most 1023 bytes and no NUL, no copy runs over the end of a block, and
-- the reply is the bytes received up to the first CR LF, or all of them if the server closes the
-- connection; it is the null pointer if `recv` fails before there is a CR LF.
pub read_data_from_server_lem :
    (chunks : List Bytes) (ending : Ending)
    → All IsChunk chunks
    → read_data_from_server chunks ending ≡ ok (reply ending [] chunks)
unfolding read_data_from_server
read_data_from_server_lem chunks ending all =
    read_from_lem ending [] 0 max_buf_len max_buf_len chunks (omega arith) (omega arith) all
