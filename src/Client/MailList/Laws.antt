-- ===== src/Client/MailList/Laws.antt =====
-- The list of smtp_proj/client/src/list.c stands for the mails that wait, the last one first.
use pvs_course_project.Base.{
  ℕ, ◌+◌, ◌≡◌, refl, List, [], ◌∷◌, some, Bytes, length, ok, fault, wild_pointer, overrun,
  strcpy_overrun, arith, ltb, if◌then◌else◌,
}
use pvs_course_project.Base.Int.{pos}
use pvs_course_project.Client.MailList.{Nodes, add_first, remove_first, count_from, count, new_list}

-- The nodes that stand for some mails: one for each, and the unset node at the end.
abbrev pub nodes_of : List Bytes → Nodes
nodes_of [] = new_list
nodes_of (mail ∷ mails) = some mail ∷ nodes_of mails

count_from_lem :
    (n : ℕ) (mails : List Bytes) → count_from (pos n) (nodes_of mails) ≡ pos (n + length mails + 1)
unfolding count_from
count_from_lem n [] = ground arith
count_from_lem n (mail ∷ mails) = ground (arith, count_from_lem (n + 1) mails)

pub count_lem : (mails : List Bytes) → count (nodes_of mails) ≡ pos (length mails)
unfolding count
count_lem [] = refl
count_lem (mail ∷ mails) = ground (arith, count_from_lem 0 mails)

-- Where the allocator gives just what it is asked for, `add_first` writes past its block for every
-- mail.
add_first_overrun : (head : Nodes) (mail : Bytes) → add_first (λ n. n) head mail ≡ fault overrun
unfolding add_first
add_first_overrun head mail = rw (strcpy_overrun (length mail) mail (omega arith))

-- The list implements a stack of mails as far as its blocks allow: `count` is the number of mails;
-- `add_first` puts one on if the block that `malloc` gives is longer than the text, and otherwise
-- writes past it, as it always does where `malloc` gives just what it is asked for; `remove_first`
-- takes the last mail off; and with no mail left it frees a pointer that was never set.
pub list_implements_stack :
    (usable : ℕ → ℕ) (mail : Bytes) (mails : List Bytes)
    → (count (nodes_of mails) ≡ pos (length mails))
      × (add_first usable (nodes_of mails) mail ≡ (
          if ltb (length mail) (usable (length mail))
          then ok (nodes_of (mail ∷ mails))
          else fault overrun))
      × (add_first (λ n. n) (nodes_of mails) mail ≡ fault overrun)
      × (remove_first (nodes_of (mail ∷ mails)) ≡ ok (nodes_of mails, pos 1))
      × (remove_first (nodes_of []) ≡ fault wild_pointer)
unfolding add_first remove_first
list_implements_stack usable mail mails =
    (count_lem mails, ground arith, add_first_overrun (nodes_of mails) mail, refl, refl)
