-- ===== src/Client/Response/Codes.antt =====
-- Which event `check_server_code` of smtp_proj/client/src/smtp_client.c reads off a reply.
use pvs_course_project.Base.{ℕ, ◌+◌, ◌*◌, ◌≤◌, ◌≡◌, ◌⊎◌, true, ◌∷◌, Bytes, codes}
use pvs_course_project.Common.Replace.{strstr}
use pvs_course_project.Client.Response.{is_found}

-- The value of a reply code with the digits `a`, `b` and `c`.
abbrev pub value : ℕ → ℕ → ℕ → ℕ
value a b c = a * 100 + b * 10 + c

-- The text of a reply that begins with three digits.
abbrev pub coded : ℕ → ℕ → ℕ → Bytes → Bytes
coded a b c rest = (48 + a) ∷ (48 + b) ∷ (48 + c) ∷ rest

-- The codes that the client takes for success.
abbrev pub IsSuccess : ℕ → Type 0
IsSuccess code = ((200 ≤ code) × (code ≤ 300)) ⊎ (code ≡ 354)

-- The phrase by which the client tells a command that the server does not have.
abbrev pub Says : Bytes → Type 0
Says response = is_found (strstr response (codes "not implemented")) ≡ true
