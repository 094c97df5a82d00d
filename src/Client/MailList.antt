-- ===== src/Client/MailList.antt =====
-- smtp_proj/client/src/list.c: the list of the mails of a domain. A node's text is `none` where it was
-- never set. `usable n` is the size of the block that `malloc(n)` returns.
pub mod Laws
use pvs_course_project.Base.{
  ℕ, suc, ◌+◌, List, [], ◌∷◌, Option, none, some, Bytes, length, Run, ok, fault, wild_pointer,
  strcpy, ◌>>=◌,
}
use pvs_course_project.Base.Int.{ℤ, pos, negsuc}

abbrev pub Nodes : Type 0
Nodes = List (Option Bytes)

-- The block for the text is as long as the text, without its final NUL.
unfoldable pub add_first : (ℕ → ℕ) → Nodes → Bytes → Run Nodes
add_first usable head val = do copy ← strcpy (usable (length val)) val; ok (some copy ∷ head)

unfoldable pub remove_first : Nodes → Run (Nodes × ℤ)
remove_first [] = ok ([], negsuc 0)
remove_first (none ∷ next) = fault wild_pointer
remove_first (some val ∷ next) = ok (next, pos 1)

abbrev add_one : ℤ → ℤ
add_one (pos n) = pos (n + 1)
add_one (negsuc n) = pos 0

-- `i` starts at -1, so that the last node is not counted.
count_from : ℤ → Nodes → ℤ
count_from i [] = i
count_from i (entry ∷ next) = count_from (add_one i) next

unfoldable pub count : Nodes → ℤ
unfolding count_from
count head = count_from (negsuc 0) head

-- The list of a new domain: `malloc(sizeof(node_t))` with `next = NULL`
-- (smtp_proj/client/src/domain_proc.c).
abbrev pub new_list : Nodes
new_list = none ∷ []
