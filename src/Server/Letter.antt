-- ===== src/Server/Letter.antt =====
-- smtp_proj/server/src/letter.c and include/letter.h. `malloc` and `calloc` are taken to succeed; the
-- field `file` is never used.
use pvs_course_project.Base.{ℕ, ◌*◌, [], Bytes, Run, ok, fault, wild_pointer, dangling_pointer}

pub record Letter : Type 0 where
  pub mail_from : Bytes
  pub rcpt_to : Bytes
  pub rcpt_username : Bytes
  pub rcpt_domain : Bytes
  pub body : Bytes

-- A pointer to a letter: never set, pointing to memory that was freed, or good.
pub data LetterPointer : Type 0 where
  wild dangling : LetterPointer
  live : Letter → LetterPointer

abbrev pub field_size : ℕ
field_size = 255

abbrev pub body_size : ℕ
body_size = 1024 * 1024 * 20

unfoldable pub letter_create : Letter
letter_create = record {
  mail_from = [];
  rcpt_to = [];
  rcpt_username = [];
  rcpt_domain = [];
  body = [];
}

-- The letter that a pointer leads to.
abbrev pub deref : LetterPointer → Run Letter
deref wild = fault wild_pointer
deref dangling = fault dangling_pointer
deref (live letter) = ok letter

unfoldable pub letter_free : LetterPointer → Run LetterPointer
letter_free wild = fault wild_pointer
letter_free dangling = fault dangling_pointer
letter_free (live letter) = ok dangling
