-- ===== src/Common/Strtok.antt =====
-- `strtok` of the C library for a delimiter of one byte, and what a run of its calls gives.
use pvs_course_project.Base.{
  ℕ, ◌≤◌, ◌<◌, ◌≡◌, refl, Bool, true, false, List, [], ◌∷◌, Option, none, some, arith, ap, inl, inr,
  Bytes, length, ◌==◌, if◌then◌else◌, Bool-cases,
}

module _ (d : ℕ) where
  -- Leading delimiters are skipped.
  skip : Bytes → Bytes
  skip [] = []
  skip (c ∷ s) = if c == d then skip s else c ∷ s

  -- The bytes up to the next delimiter, and what is left behind it.
  unfoldable pub token : Bytes → Bytes
  token [] = []
  token (c ∷ s) = if c == d then [] else c ∷ token s

  unfoldable pub after : Bytes → Bytes
  after [] = []
  after (c ∷ s) = if c == d then s else after s

  abbrev cut : Bytes → Option (Bytes × Bytes)
  cut [] = none
  cut (c ∷ s) = some (token (c ∷ s), after (c ∷ s))

-- The first argument is the delimiter; the result is the token and the text kept for the next call.
unfoldable pub strtok : ℕ → Bytes → Option (Bytes × Bytes)
unfolding skip token after
strtok d s = cut d (skip d s)

-- The fields of a text: what stands between its delimiters, the empty ones included.
abbrev pub push : ℕ → List Bytes → List Bytes
push c [] = (c ∷ []) ∷ []
push c (f ∷ fs) = (c ∷ f) ∷ fs

unfoldable pub fields : ℕ → Bytes → List Bytes
fields d [] = [] ∷ []
fields d (c ∷ s) = if c == d then [] ∷ fields d s else push c (fields d s)

abbrev pub is_empty {ℓ} : {A : Type ℓ} → List A → Bool
is_empty [] = true
is_empty (_ ∷ _) = false

abbrev pub drop_empty : List Bytes → List Bytes
drop_empty [] = []
drop_empty ([] ∷ fs) = drop_empty fs
drop_empty ((c ∷ f) ∷ fs) = (c ∷ f) ∷ drop_empty fs

-- The words of a text: its fields that are not empty.
unfoldable pub words : ℕ → Bytes → List Bytes
words d s = drop_empty (fields d s)

-- One call takes the first word off.
abbrev pub TakesWord : ℕ → Bytes → Option (Bytes × Bytes) → Type 0
TakesWord d s none = words d s ≡ []
TakesWord d s (some (w, rest)) = (words d s ≡ w ∷ words d rest) × (length rest < length s)

words-skip : (d : ℕ) (s : Bytes) → words d s ≡ words d (skip d s)
unfolding words fields skip
words-skip d [] = refl
words-skip d (c ∷ s) = ground (arith, words-skip d s)

length-skip : (d : ℕ) (s : Bytes) → length (skip d s) ≤ length s
unfolding skip
length-skip d [] = omega arith
length-skip d (c ∷ s) = ground (arith, length-skip d s)

length-after : (d c : ℕ) (s : Bytes) → length (after d (c ∷ s)) < length (c ∷ s)
unfolding after
length-after d c [] = ground arith
length-after d c (e ∷ s) = ground (arith, length-after d e s)

-- The first field is the token, and the others hold the words of what is left behind it.
pub fields-token :
    (d : ℕ) (s : Bytes)
    → (fs : List Bytes) × (fields d s ≡ token d s ∷ fs) × (drop_empty fs ≡ words d (after d s))
unfolding fields token after words
fields-token d [] = ([], refl, refl)
fields-token d (c ∷ s) = elim (Bool-cases (c == d)) [
  | inl e ↦ (fields d s, ground arith, ground arith)
  | inr e ↦
      let (fs, first, others) = fields-token d s in
      (fs, ground (arith, first), ground (arith, others))
]

words-token :
    (d c : ℕ) (s : Bytes)
    → (c == d) ≡ false
    → words d (c ∷ s) ≡ token d (c ∷ s) ∷ words d (after d (c ∷ s))
unfolding token words
words-token d c s e =
    let (fs, first, others) = fields-token d (c ∷ s) in rw first (ground (arith, others))

-- What `skip` stops at is no delimiter.
skip-head : (d c : ℕ) (s t : Bytes) → skip d s ≡ c ∷ t → (c == d) ≡ false
unfolding skip
skip-head d c [] t h = ground arith
skip-head d c (b ∷ s) t h = ground (arith, skip-head d c s t)

cut-TakesWord : (d : ℕ) (s t : Bytes) → skip d s ≡ t → TakesWord d s (cut d t)
cut-TakesWord d s [] h = rw (words-skip d s, h) (unfold words fields in refl)
cut-TakesWord d s (c ∷ t) h = (
  rw (words-skip d s, h) (words-token d c t (skip-head d c s t h)),
  omega (arith, length-after d c t, length-skip d s, ap length h),
)

pub strtok-TakesWord : (d : ℕ) (s : Bytes) → TakesWord d s (strtok d s)
unfolding strtok
strtok-TakesWord d s = cut-TakesWord d s (skip d s) refl
