-- ===== src/Server/Config/Ids.antt =====
-- The order of the two calls in `set_id` of smtp_proj/server/src/server.c.
use pvs_course_project.Base.{
  ℕ, ◌≡◌, refl, ◌≢◌, ◌⊎◌, ◌↔◌, inl, inr, Option, none, some, Bytes, arith,
}
use pvs_course_project.Base.Int.{pos, negsuc}
use mathlib.Core.Path.{ap, sym, ◌∙◌, subst}
use pvs_course_project.Server.Config.{set_id, Reading, need, finish, ◌>>=◌}

need_inv :
    {O A : Type 0} (n : ℕ) (o after : O) (found : Option A) (f : A → Reading O O)
    → finish (need (negsuc n) o found >>= f) ≡ (pos 0, after)
    → (a : A) × (found ≡ some a) × (finish (f a) ≡ (pos 0, after))
need_inv n o after none f h = ground arith
need_inv n o after (some a) f h = (a, refl, h)

last_inv :
    {O : Type 0} (n : ℕ) (o after : O) (found : Option O)
    → finish (need (negsuc n) o found) ≡ (pos 0, after)
    → found ≡ some after
last_inv n o after none h = ground arith
last_inv n o after (some a) h = ap (λ p. some p.1) h

module _ {Cred : Type 0} (getpwnam getgrnam : Bytes → Option ℕ)
    (setuid setgid : ℕ → Cred → Option Cred) (user group : Bytes) where
  changed_lem :
      (before after : Cred)
      → set_id getpwnam getgrnam setuid setgid user group before ≡ (pos 0, after)
      → (uid : ℕ) × (gid : ℕ) × (mid : Cred) × (getpwnam user ≡ some uid)
        × (getgrnam group ≡ some gid)
        × (setuid uid before ≡ some mid)
        × (setgid gid mid ≡ some after)
  unfolding set_id
  changed_lem before after h =
      let (uid, e0, h0) = need_inv 9 before after (getpwnam user) _ h in
      let (gid, e1, h1) = need_inv 19 before after (getgrnam group) _ h0 in
      let (mid, e2, h2) = need_inv 10 before after (setuid uid before) _ h1 in
      (uid, gid, mid, e0, e1, e2, last_inv 20 mid after (setgid gid mid) h2)

  -- `set_id` returns 0 exactly if both names are known and both calls succeed, `setuid` before
  -- `setgid`; the credentials are then what the two calls leave.
  set_id_lem :
      (before after : Cred)
      → (set_id getpwnam getgrnam setuid setgid user group before ≡ (pos 0, after)) ↔ (
          (uid : ℕ) × (gid : ℕ) × (mid : Cred) × (getpwnam user ≡ some uid)
          × (getgrnam group ≡ some gid)
          × (setuid uid before ≡ some mid)
          × (setgid gid mid ≡ some after))
  unfolding set_id
  set_id_lem before after =
      (changed_lem before after, λ (uid, gid, mid, e0, e1, e2, e3). rw (e0, e1, e2, e3) refl)

  -- POSIX lets a process change to another group only while its user is root or the group is one of
  -- its own. The user has been changed before the group is: for a user other than root and a group
  -- that the process does not have already, `set_id` returns an error whatever its rights were.
  pub set_id_refused :
      (uid_of : Cred → ℕ) (HasGroup : Cred → ℕ → Type 0)
      → ((uid : ℕ) (c d : Cred) → setuid uid c ≡ some d → uid_of d ≡ uid)
      → ((uid gid : ℕ) (c d : Cred) → setuid uid c ≡ some d → HasGroup d gid → HasGroup c gid)
      → ((gid : ℕ) (c d : Cred) → setgid gid c ≡ some d → (uid_of c ≡ 0) ⊎ HasGroup c gid)
      → (before : Cred) (uid gid : ℕ) → getpwnam user ≡ some uid
      → getgrnam group ≡ some gid
      → uid ≢ 0
      → (HasGroup before gid → ⊥)
      → (set_id getpwnam getgrnam setuid setgid user group before).0 ≢ pos 0
  set_id_refused uid_of HasGroup sets keeps allowed before uid gid e0 e1 apart foreign h =
      let result = set_id getpwnam getgrnam setuid setgid user group before in
      let (uid', gid', mid, known, member, changed, joined) =
        changed_lem before result.1 (ap (λ code. (code, result.1)) h) in
      let same : uid' ≡ uid = ground (arith, e0, known) in
      let same_group : gid' ≡ gid = ground (arith, e1, member) in
      elim (allowed gid' mid result.1 joined) [
        | inl root ↦ apart (sym same ∙ (sym (sets uid' before mid changed) ∙ root))
        | inr has ↦
            foreign (keeps uid' gid before mid changed (subst (HasGroup mid) same_group has))
      ]
