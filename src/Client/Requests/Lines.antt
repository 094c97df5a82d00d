-- ===== src/Client/Requests/Lines.antt =====
-- `strtok` over the lines of a mail, as the `send_…` functions of
-- smtp_proj/client/src/smtp_client.c call it.
use pvs_course_project.Base.{
  ℕ, zero, suc, ◌+◌, ◌<◌, ◌≡◌, refl, true, List, [], ◌∷◌, ◌++◌, Option, none, some, Bytes, codes,
  length, length-append, ok, strcpy_fits, ◌>>=◌, arith, All,
}
use pvs_course_project.Base.Int.{ℤ, pos}
use pvs_course_project.Common.Strtok.{strtok, words, TakesWord, strtok-TakesWord}
use pvs_course_project.Client.Response.{max_buf_len}
use pvs_course_project.Client.Requests.{World, Os, line_feed, next_token, send_data, send_lines}

-- The lines of a text that are not empty.
abbrev pub lines : Bytes → List Bytes
lines text = words line_feed text

-- A text for which `request_buf` has room behind `n` bytes of a command.
abbrev pub IsShort : ℕ → Bytes → Type 0
IsShort n text = length text + n < max_buf_len

-- Every write gets through.
abbrev pub IsOpen : Os → Type 0
IsOpen os = (log : List (ℤ × Bytes)) (fd : ℤ) (text : Bytes) → os.accepts log fd text ≡ true

-- The log after lines are sent one by one, the newest first.
abbrev pub post : ℤ → List Bytes → List (ℤ × Bytes) → List (ℤ × Bytes)
post fd [] log = log
post fd (w ∷ ws) log = post fd ws ((fd, w ++ codes "\n") ∷ log)

-- What the next call of `strtok` gives of a text whose lines are known, and what it keeps.
pub next_token-some :
    (world : World) (text w : Bytes) (ws : List Bytes)
    → lines text ≡ w ∷ ws
    → (rest : Bytes) × (lines rest ≡ ws)
      × (length rest < length text)
      × (next_token (some text) world ≡ ok (some w, record world { saved = some rest }))
unfolding next_token
next_token-some world text w ws h =
    go (strtok line_feed text) refl (strtok-TakesWord line_feed text)
  where
    go :
        (r : Option (Bytes × Bytes))
        → strtok line_feed text ≡ r
        → TakesWord line_feed text r
        → (rest : Bytes) × (lines rest ≡ ws)
          × (length rest < length text)
          × (next_token (some text) world ≡ ok (some w, record world { saved = some rest }))
    go none e k = ground (arith, h)
    go (some (v, rest)) e (k, shorter) =
        let same : v ≡ w = ground (arith, h) in
        (rest, ground (arith, h), shorter, rw (e, same) refl)

pub next_token-nil :
    (world : World) (text : Bytes)
    → lines text ≡ []
    → next_token (some text) world ≡ ok (none, record world { saved = some [] })
unfolding next_token
next_token-nil world text h = go (strtok line_feed text) refl (strtok-TakesWord line_feed text)
  where
    go :
        (r : Option (Bytes × Bytes))
        → strtok line_feed text ≡ r
        → TakesWord line_feed text r
        → next_token (some text) world ≡ ok (none, record world { saved = some [] })
    go none e k = rw e refl
    go (some (v, rest)) e (k, shorter) = ground (arith, h)

-- A call with a null pointer goes on with the text that is kept.
pub next_token-saved :
    (world : World) (text : Bytes)
    → world.saved ≡ some text
    → next_token none world ≡ next_token (some text) world
unfolding next_token
next_token-saved world text h = rw h refl

module _ (os : Os) (open_all : IsOpen os) where
  pub send_data_open :
      (text : Bytes) (fd : ℤ) (world : World)
      → send_data os text fd world ≡ (pos 0, record world { sent = (fd, text) ∷ world.sent })
  unfolding send_data
  send_data_open text fd world = rw (open_all world.sent fd text) refl

  send_lines-suc :
      (fuel : ℕ) (token : Bytes) (fd : ℤ) (world : World)
      → IsShort 1 token
      → send_lines os (suc fuel) (some token) fd world ≡ (
          next_token none (record world { sent = (fd, token ++ codes "\n") ∷ world.sent })
          >>= λ (next, world2). send_lines os fuel next fd world2)
  unfolding send_lines
  send_lines-suc fuel token fd world h =
      rw
        (
          strcpy_fits max_buf_len (token ++ codes "\n")
              (omega (arith, h, length-append token (codes "\n"))),
          send_data_open (token ++ codes "\n") fd world,
        )
        refl

  pub send_lines-none :
      (fuel : ℕ) (fd : ℤ) (world : World) → send_lines os fuel none fd world ≡ ok world
  unfolding send_lines
  send_lines-none fuel fd world = refl

  -- The loop sends the lines in their order, each with a line feed.
  pub send_lines_lem :
      (fuel : ℕ) (token rest : Bytes) (ws : List Bytes) (fd : ℤ) (world : World)
      → world.saved ≡ some rest
      → lines rest ≡ ws
      → length rest < fuel
      → All (IsShort 1) (token ∷ ws)
      → send_lines os fuel (some token) fd world
        ≡ ok (record world { sent = post fd (token ∷ ws) world.sent; saved = some [] })
  send_lines_lem zero token rest ws fd world h k enough short = absurd (omega (arith, enough))
  send_lines_lem (suc fuel) token rest [] fd world h k enough (short, shorts) =
      let after = record world { sent = (fd, token ++ codes "\n") ∷ world.sent } in
      rw
        (
          send_lines-suc fuel token fd world short,
          next_token-saved after rest h,
          next_token-nil after rest k,
        )
        (send_lines-none fuel fd (record after { saved = some [] }))
  send_lines_lem (suc fuel) token rest (w ∷ ws) fd world h k enough (short, shorts) =
      let after = record world { sent = (fd, token ++ codes "\n") ∷ world.sent } in
      let (rest1, left, shorter, taken) = next_token-some after rest w ws k in
      rw (send_lines-suc fuel token fd world short, next_token-saved after rest h, taken)
        (send_lines_lem fuel w rest1 ws fd (record after { saved = some rest1 }) refl left
          (omega (arith, shorter, enough)) shorts)
