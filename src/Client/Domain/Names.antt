-- ===== src/Client/Domain/Names.antt =====
-- The descriptors of a worker: `register_new_email` of smtp_proj/client/src/domain_proc.c gives each
-- domain one of its own.
use pvs_course_project.Base.{
  ℕ, zero, suc, ◌≤◌, ◌≡◌, refl, ◌∙◌, sym, true, false, Bool, ◌||◌, List, [], ◌∷◌, ◌++◌, none, some,
  Bytes, length, length-append, length-set, get_elem?, set, str_eq, str_eq-eq, Run, ok, Returns,
  Returns-bind, Returns-any, strcpy, ltb→lt, ◌>>=◌, ltb, if◌then◌else◌, All, All-append, ap, arith,
  Bool-cases, Option-cases, inl, inr,
}
use pvs_course_project.Base.Int.{ℤ, pos, neg, ltb_ℤ, eq_ℤ}
use mathlib.Core.Option.{some-injective}
use pvs_course_project.Common.Split.{str_split, first_token}
use pvs_course_project.Common.Dirs.{get_domain_name_from_email_full_path}
use pvs_course_project.Client.Fsm.{Event, ev_ok, ev_error, client_fsm_step}
use pvs_course_project.Client.MailList.{new_list, add_first, count}
use pvs_course_project.Client.Requests.{Domain}
use pvs_course_project.Client.Domain.{
  Sockets, Worker, step_to, init_mail_domain_conn_settings, find_last, max_mail_domain_num, enlist,
  add_domain, reuse_domain, register_new_email, is_done, is_init, pick,
}

abbrev pub names : List Domain → List Bytes
names [] = []
names (d ∷ ds) = d.domain ∷ names ds

abbrev AreOther : Bytes → List Bytes → Type 0
AreOther name = All (λ n. str_eq name n ≡ false)

abbrev AreDistinct : List Bytes → Type 0
AreDistinct [] = Unit
AreDistinct (n ∷ ns) = AreOther n ns × AreDistinct ns

find_last-AreOther :
    (name : Bytes) (i : ℕ) (ds : List Domain)
    → find_last name i ds ≡ none
    → AreOther name (names ds)
unfolding find_last
find_last-AreOther name i [] h = tt
find_last-AreOther name i (d ∷ ds) h = elim (Option-cases (find_last name (suc i) ds)) [
  | inr (j, e) ↦ absurd (ground arith)
  | inl e ↦ (ground arith, find_last-AreOther name (suc i) ds e)
]

str_eq_comm : (s t : Bytes) → str_eq s t ≡ false → str_eq t s ≡ false
str_eq_comm s t h = elim (Bool-cases (str_eq t s)) [
  | inl e ↦ ground (arith, str_eq-eq t s e)
  | inr e ↦ e
]

distinct_last :
    (name : Bytes) (ns : List Bytes)
    → AreOther name ns
    → AreDistinct ns
    → AreDistinct (ns ++ name ∷ [])
distinct_last name [] other distinct = (tt, tt)
distinct_last name (n ∷ ns) other distinct = (
  All-append (λ m. str_eq n m ≡ false) ns (name ∷ []) distinct.0 (str_eq_comm name n other.0, tt),
  distinct_last name ns other.1 distinct.1,
)

names-append : (xs ys : List Domain) → names (xs ++ ys) ≡ names xs ++ names ys
names-append [] ys = refl
names-append (x ∷ xs) ys = ap (◌∷◌ x.domain) (names-append xs ys)

names-set :
    (ds : List Domain) (i : ℕ) (d next : Domain)
    → get_elem? ds i ≡ some d
    → next.domain ≡ d.domain
    → names (set ds i next) ≡ names ds
names-set [] i d next e h = refl
names-set (x ∷ ds) zero d next e h =
    ap (λ n. n ∷ names ds) (h ∙ sym (ap (λ y. y.domain) (some-injective x d e)))
names-set (x ∷ ds) (suc i) d next e h = ap (◌∷◌ x.domain) (names-set ds i d next e h)

abbrev Keeps : Bytes → Run (Domain × Sockets) → Type 0
Keeps name = Returns (λ r. r.0.domain ≡ name)

step_to-domain :
    (d : Domain) (event : Event) → Returns (λ d1. d1.domain ≡ d.domain) (step_to d event)
step_to-domain d event =
    Returns-bind (λ _. Unit {0}) (λ d1. d1.domain ≡ d.domain) (client_fsm_step d.state event)
      (λ next. ok (record d { state = next })) (Returns-any (client_fsm_step d.state event))
      (λ next _. refl)

init-Keeps :
    (fd : ℤ) (d : Domain) (s : Sockets) → Keeps d.domain (init_mail_domain_conn_settings fd d s)
unfolding init_mail_domain_conn_settings
init-Keeps fd d s =
    Returns-bind (λ d1. d1.domain ≡ d.domain) (λ r. r.0.domain ≡ d.domain) (step_to d ev_ok) _
      (step_to-domain d ev_ok)
      (λ d1 e. elim (Bool-cases (ltb_ℤ (neg 1) fd)) [
        | inl h ↦ rw h e
        | inr h ↦ rw h (
            Returns-bind (λ d2. d2.domain ≡ d1.domain) (λ r. r.0.domain ≡ d.domain)
              (step_to d1 ev_error) (λ d2. ok (d2, s)) (step_to-domain d1 ev_error) (λ d2 k. k ∙ e))
      ])

enlist-Keeps :
    (usable : ℕ → ℕ) (path : Bytes) (d : Domain) (s : Sockets)
    → Keeps d.domain (enlist usable path d s)
enlist-Keeps usable path d s = elim (Bool-cases (is_done d.state)) [
  | inl h ↦ rw h refl
  | inr h ↦ rw h (
      Returns-bind (λ _. Unit {0}) (λ r. r.0.domain ≡ d.domain) (add_first usable d.mails_list path)
        (λ mails. ok (record d { mails_list = mails }, s))
        (Returns-any (add_first usable d.mails_list path)) (λ mails _. refl))
]

-- One descriptor for a domain, in an array of 50.
abbrev pub IsRegistry : Worker → Type 0
IsRegistry w = AreDistinct (names w.domains) × (length w.domains ≤ max_mail_domain_num)

strcpy-Returns : (cap : ℕ) (src : Bytes) → Returns (λ copy. copy ≡ src) (strcpy cap src)
strcpy-Returns cap src = elim (Bool-cases (ltb (length src) cap)) [
  | inl h ↦ rw h refl
  | inr h ↦ rw h tt
]

module _ (usable : ℕ → ℕ) (connect : Bytes → ℤ) (fresh : Domain) where
  add_domain-IsRegistry :
      (path name : Bytes) (total retry : ℤ) (w : Worker)
      → IsRegistry w
      → AreOther name (names w.domains)
      → Returns IsRegistry (add_domain usable connect fresh path name total retry w)
  unfolding add_domain
  add_domain-IsRegistry path name total retry w v other =
      elim (Bool-cases (ltb (length w.domains) max_mail_domain_num)) [
        | inr h ↦ rw h tt
        | inl h ↦ rw h (
            Returns-bind (λ copy. copy ≡ name) IsRegistry (strcpy (usable (length name)) name) _
              (strcpy-Returns (usable (length name)) name)
              (λ copy same.
                let d = record fresh {
                  domain = copy;
                  total_send_time = total;
                  retry_time = retry;
                } in
                Returns-bind (λ r. r.0.domain ≡ copy) IsRegistry
                  (init_mail_domain_conn_settings (connect name) d w.sockets) _
                  (init-Keeps (connect name) d w.sockets)
                  (λ (d1, s1) e1.
                    let listed = record d1 { mails_list = new_list } in
                    Returns-bind (λ r. r.0.domain ≡ d1.domain) IsRegistry
                      (enlist usable path listed s1) _ (enlist-Keeps usable path listed s1)
                      (λ (d2, s2) e2.
                        let own : d2.domain ≡ name = e2 ∙ e1 ∙ same in
                        (
                          rw (names-append w.domains (d2 ∷ []), own)
                              (distinct_last name (names w.domains) other v.0),
                          omega (
                            arith,
                            length-append w.domains (d2 ∷ []),
                            ltb→lt (length w.domains) max_mail_domain_num h,
                          ),
                        )))))
      ]

  renew-Keeps :
      (renews : Bool) (fd : ℤ) (d : Domain) (s : Sockets)
      → Keeps d.domain (if renews then init_mail_domain_conn_settings fd d s else ok (d, s))
  renew-Keeps true fd d s = init-Keeps fd d s
  renew-Keeps false fd d s = refl

  reuse_domain-IsRegistry :
      (path name : Bytes) (i : ℕ) (d : Domain) (w : Worker)
      → IsRegistry w
      → get_elem? w.domains i ≡ some d
      → Returns IsRegistry (reuse_domain usable connect fresh path name i d w)
  unfolding reuse_domain
  reuse_domain-IsRegistry path name i d w v got =
      let renews = eq_ℤ (count d.mails_list) (pos 0) || is_init d.state in
      Returns-bind (λ r. r.0.domain ≡ d.domain) IsRegistry
        (if renews
          then init_mail_domain_conn_settings (connect name) d w.sockets
          else ok (d, w.sockets))
        _ (renew-Keeps renews (connect name) d w.sockets)
        (λ (d1, s1) e1.
          Returns-bind (λ r. r.0.domain ≡ d1.domain) IsRegistry (enlist usable path d1 s1) _
            (enlist-Keeps usable path d1 s1)
            (λ (d2, s2) e2. (
              rw (names-set w.domains i d d2 got (e2 ∙ e1)) v.0,
              omega (arith, length-set w.domains i d2, v.1),
            )))

  -- What `register_new_email` returns is a table in which every domain has one descriptor, and no more
  -- than the 50 that the array holds, if it was so before, for every mail, whether or not its domain
  -- is new and whatever the connection to its server gives.
  pub register_new_email-IsRegistry :
      (path : Bytes) (total retry : ℤ) (w : Worker)
      → IsRegistry w
      → Returns IsRegistry (register_new_email usable connect fresh path total retry w)
  unfolding register_new_email
  register_new_email-IsRegistry path total retry w v =
      after (strcpy (usable (length path)) path) _ (λ saved.
        after (get_domain_name_from_email_full_path usable path) _ (λ mail_domain.
          after (str_split mail_domain b',') _
            (λ tokens. after (first_token tokens) _ (λ name. picked saved name))))
    where
      after :
          {A : Type 0} (m : Run A) (f : A → Run Worker)
          → ((a : A) → Returns IsRegistry (f a))
          → Returns IsRegistry (m >>= f)
      after m f h = Returns-bind (λ _. Unit {0}) IsRegistry m f (Returns-any m) (λ a _. h a)

      picked :
          (saved name : Bytes)
          → Returns IsRegistry
              (pick usable connect fresh saved name total retry w (find_last name 0 w.domains))
      picked saved name = elim (Option-cases (find_last name 0 w.domains)) [
        | inl new ↦ rw new (
            add_domain-IsRegistry saved name total retry w v
              (find_last-AreOther name 0 w.domains new))
        | inr (i, known) ↦ elim (Option-cases (get_elem? w.domains i)) [
          | inl past ↦ rw (known, past, pick) tt
          | inr (d, got) ↦ rw (known, got, pick) (reuse_domain-IsRegistry saved name i d w v got)
        ]
      ]
