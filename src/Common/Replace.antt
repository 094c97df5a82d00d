-- ===== src/Common/Replace.antt =====
-- `str_replace` of smtp_proj/common/src/string_utils.c, with `strstr` of the C library.
use pvs_course_project.Base.{
  ℕ, ◌≡◌, refl, Bool, true, false, [], ◌∷◌, ◌++◌, Option, none, some, arith, inl, inr, ◌⊎◌, ap,
  Bytes, length, drop, drop-append, ◌==◌, ◌&&◌, if◌then◌else◌, Bool-cases, Run, ok, strcpy,
  strcpy-eq-ok,
}

unfoldable pub starts_with : Bytes → Bytes → Bool
starts_with s [] = true
starts_with [] (b ∷ t) = false
starts_with (a ∷ s) (b ∷ t) = (a == b) && starts_with s t

abbrev shift : ℕ → Option (Bytes × Bytes) → Option (Bytes × Bytes)
shift c none = none
shift c (some (pre, at)) = some (c ∷ pre, at)

-- The text before the first occurrence, and the text from it on.
unfoldable pub strstr : Bytes → Bytes → Option (Bytes × Bytes)
strstr [] orig = if starts_with [] orig then some ([], []) else none
strstr (c ∷ s) orig = if starts_with (c ∷ s) orig then some ([], c ∷ s) else shift c (strstr s orig)

-- `static char buffer[4096]`
abbrev buffer_size : ℕ
buffer_size = 4096

abbrev put_back : Bytes → Bytes → Bytes → Option (Bytes × Bytes) → Run Bytes
put_back str orig rep none = ok str
put_back str orig rep (some (pre, at)) = strcpy buffer_size (pre ++ (rep ++ drop (length orig) at))

unfoldable pub str_replace : Bytes → Bytes → Bytes → Run Bytes
unfolding strstr starts_with
str_replace str orig rep = put_back str orig rep (strstr str orig)

-- `orig` stands nowhere in the text.
abbrev pub IsFree : Bytes → Bytes → Type 0
IsFree orig [] = starts_with [] orig ≡ false
IsFree orig (c ∷ s) = (starts_with (c ∷ s) orig ≡ false) × IsFree orig s

-- No occurrence of `orig` in the text `pre ++ at` begins within `pre`.
abbrev IsFirst : Bytes → Bytes → Bytes → Type 0
IsFirst orig [] at = Unit
IsFirst orig (c ∷ pre) at = (starts_with (c ∷ pre ++ at) orig ≡ false) × IsFirst orig pre at

starts_with-append : (s t : Bytes) → starts_with (s ++ t) s ≡ true
unfolding starts_with
starts_with-append [] t = unfold starts_with in refl
starts_with-append (a ∷ s) t = ground (arith, starts_with-append s t)

starts_with-split : (s t : Bytes) → starts_with s t ≡ true → s ≡ t ++ drop (length t) s
unfolding starts_with
starts_with-split s [] h = refl
starts_with-split [] (b ∷ t) h = ground arith
starts_with-split (a ∷ s) (b ∷ t) h = ground (arith, starts_with-split s t)

strstr-none : (s orig : Bytes) → strstr s orig ≡ none → IsFree orig s
unfolding strstr
strstr-none [] orig h = ground arith
strstr-none (c ∷ s) orig h = ground (arith, strstr-none s orig)

strstr_of_IsFree : (s orig : Bytes) → IsFree orig s → strstr s orig ≡ none
unfolding strstr
strstr_of_IsFree [] orig h = ground arith
strstr_of_IsFree (c ∷ s) orig h = ground (arith, strstr_of_IsFree s orig h.1)

strstr_at : (s orig : Bytes) → starts_with s orig ≡ true → strstr s orig ≡ some ([], s)
unfolding strstr starts_with
strstr_at [] [] h = refl
strstr_at [] (b ∷ t) h = ground arith
strstr_at (c ∷ s) orig h = rw h

strstr-cons :
    (c : ℕ) (s orig : Bytes)
    → starts_with (c ∷ s) orig ≡ false
    → strstr (c ∷ s) orig ≡ shift c (strstr s orig)
unfolding strstr
strstr-cons c s orig h = rw h

strstr_of_IsFirst :
    (pre orig post : Bytes)
    → IsFirst orig pre (orig ++ post)
    → strstr (pre ++ (orig ++ post)) orig ≡ some (pre, orig ++ post)
strstr_of_IsFirst [] orig post h = strstr_at (orig ++ post) orig (starts_with-append orig post)
strstr_of_IsFirst (c ∷ pre) orig post (h, hs) =
    rw (strstr-cons c (pre ++ (orig ++ post)) orig h, strstr_of_IsFirst pre orig post hs)

-- At the first occurrence of `orig` the copy into the static buffer is made: the text before it, the
-- replacement and the text behind it, which must fit.
str_replace-first :
    (pre orig post rep : Bytes)
    → IsFirst orig pre (orig ++ post)
    → str_replace (pre ++ (orig ++ post)) orig rep ≡ strcpy buffer_size (pre ++ (rep ++ post))
unfolding str_replace
str_replace-first pre orig post rep h =
    rw (strstr_of_IsFirst pre orig post h, drop-append orig post)

-- A text without `orig` is returned as it is.
str_replace_absent : (str orig rep : Bytes) → IsFree orig str → str_replace str orig rep ≡ ok str
unfolding str_replace
str_replace_absent str orig rep h = rw (strstr_of_IsFree str orig h)

-- A text holds no occurrence of `orig`, or falls apart at the first one.
abbrev pub Splits : Bytes → Bytes → Type 0
Splits orig str =
    (pre : Bytes) × (post : Bytes) × (str ≡ pre ++ (orig ++ post)) × IsFirst orig pre (orig ++ post)

starts_with-Splits : (orig s : Bytes) → starts_with s orig ≡ true → Splits orig s
starts_with-Splits orig s h = ([], drop (length orig) s, starts_with-split s orig h, tt)

Splits-cons :
    (orig : Bytes) (c : ℕ) (s : Bytes)
    → starts_with (c ∷ s) orig ≡ false
    → Splits orig s
    → Splits orig (c ∷ s)
Splits-cons orig c s h (pre, post, e, first) =
    (c ∷ pre, post, ap (λ t. c ∷ t) e, (rw e at h, first))

IsFree-or-Splits : (orig str : Bytes) → IsFree orig str ⊎ Splits orig str
IsFree-or-Splits orig [] = elim (Bool-cases (starts_with [] orig)) [
  | inl h ↦ inr (starts_with-Splits orig [] h)
  | inr h ↦ inl h
]
IsFree-or-Splits orig (c ∷ s) = elim (Bool-cases (starts_with (c ∷ s) orig)) [
  | inl h ↦ inr (starts_with-Splits orig (c ∷ s) h)
  | inr h ↦ elim (IsFree-or-Splits orig s) [
    | inl free ↦ inl (h, free)
    | inr parts ↦ inr (Splits-cons orig c s h parts)
  ]
]

-- Whatever the three texts are, a result of str_replace is the text itself, which then holds no
-- occurrence of `orig`, or the text with its first occurrence of `orig` replaced by `rep`.
pub str_replace_cases :
    (str orig rep out : Bytes)
    → str_replace str orig rep ≡ ok out
    → (IsFree orig str × (out ≡ str))
      ⊎ ((parts : Splits orig str) × (out ≡ parts.0 ++ (rep ++ parts.1)))
str_replace_cases str orig rep out h = elim (IsFree-or-Splits orig str) [
  | inl free ↦ inl (free, ground (arith, str_replace_absent str orig rep free))
  | inr parts ↦ inr (parts, replaced parts)
]
  where
    replaced : (parts : Splits orig str) → out ≡ parts.0 ++ (rep ++ parts.1)
    replaced (pre, post, e, first) =
        strcpy-eq-ok buffer_size (pre ++ (rep ++ post)) out
          (rw (← str_replace-first pre orig post rep first, ← e) h)
