-- ===== src/Server/Config/Laws.antt =====
-- What smtp_proj/server/src/config.c and `set_id` of smtp_proj/server/src/server.c accept, and the
-- texts for what they refuse.
use pvs_course_project.Base.{ℕ, ◌≤◌, ◌≡◌, refl, ◌≢◌, ◌↔◌, false, Option, some, Bytes, codes, arith}
use mathlib.Core.Path.{subst, ap}
use pvs_course_project.Base.Int.{ℤ, pos, negsuc, neg}
use pvs_course_project.Server.Config.{
  ServerOpts, going, need, finish, out_of, read_address, read_owner, read_mail, read_opts,
  server_opts_init, unrecognized, server_opts_err,
}
use pvs_course_project.Server.Config.Refusals.{
  >>=-eq-going, need_inv, refuse_inv, Stops, Stops-bind, Stops-need_bind, Stops-refuse, IsRefusal,
  finish_inv, finish_err,
}

-- A natural number up to a bound.
abbrev IsUpTo : ℕ → ℤ → Type 0
IsUpTo top (pos n) = n ≤ top
IsUpTo top (negsuc n) = ⊥

IsUpTo-out_of : (top : ℕ) (n : ℤ) → out_of n top ≡ false → IsUpTo top n
IsUpTo-out_of top (pos n) h = ground arith
IsUpTo-out_of top (negsuc n) h = ground arith

out_of-IsUpTo : (top : ℕ) (n : ℤ) → IsUpTo top n → out_of n top ≡ false
out_of-IsUpTo top (pos n) h = ground arith
out_of-IsUpTo top (negsuc n) h = absurd h

module _ {Config Setting : Type 0} (config_lookup : Config → Bytes → Option Setting)
    (lookup_string : Setting → Bytes → Option Bytes) (lookup_int : Setting → Bytes → Option ℤ) where
  -- The section `system` holds the options, with the port and the number of processes in range.
  abbrev pub Holds : Config → ServerOpts → Type 0
  Holds config opts =
      (system : Setting) × (config_lookup config (codes "system") ≡ some system)
      × (lookup_string system (codes "bind_ip") ≡ some opts.ip)
      × (lookup_int system (codes "port") ≡ some opts.port)
      × (lookup_string system (codes "user") ≡ some opts.user)
      × (lookup_string system (codes "group") ≡ some opts.group)
      × (lookup_int system (codes "process_count") ≡ some opts.process_count)
      × (lookup_string system (codes "domain") ≡ some opts.domain)
      × (lookup_string system (codes "maildir") ≡ some opts.maildir)
      × IsUpTo 65535 opts.port
      × IsUpTo 1024 opts.process_count

  address_lem :
      (system : Setting) (o after : ServerOpts)
      → read_address config_lookup lookup_string lookup_int system o ≡ going after
      → (lookup_string system (codes "bind_ip") ≡ some after.ip)
        × (lookup_int system (codes "port") ≡ some after.port)
        × IsUpTo 65535 after.port
  unfolding read_address
  address_lem system o after h =
      let (ip, h1, k1) =
        >>=-eq-going (need (neg 20) o (lookup_string system (codes "bind_ip"))) _ h in
      let (port, h2, k2) =
        >>=-eq-going (need (neg 30) (record o { ip = ip }) (lookup_int system (codes "port"))) _
          k1 in
      let (fits, same) = refuse_inv (neg 31) (out_of port 65535) _ k2 in
      subst
        (λ r.
          (lookup_string system (codes "bind_ip") ≡ some r.ip)
          × (lookup_int system (codes "port") ≡ some r.port)
          × IsUpTo 65535 r.port)
        same (need_inv _ o _ h1, need_inv _ _ _ h2, IsUpTo-out_of 65535 port fits)

  owner_lem :
      (system : Setting) (o after : ServerOpts)
      → read_owner config_lookup lookup_string lookup_int system o ≡ going after
      → (after.ip ≡ o.ip)
        × (after.port ≡ o.port)
        × (lookup_string system (codes "user") ≡ some after.user)
        × (lookup_string system (codes "group") ≡ some after.group)
        × (lookup_int system (codes "process_count") ≡ some after.process_count)
        × IsUpTo 1024 after.process_count
  unfolding read_owner
  owner_lem system o after h =
      let (user, h1, k1) =
        >>=-eq-going (need (neg 40) o (lookup_string system (codes "user"))) _ h in
      let (group, h2, k2) =
        >>=-eq-going
          (need (neg 50) (record o { user = user }) (lookup_string system (codes "group"))) _ k1 in
      let (n, h3, k3) =
        >>=-eq-going
          (need (neg 60) (record o { user = user; group = group })
            (lookup_int system (codes "process_count")))
          _ k2 in
      let (fits, same) = refuse_inv (neg 61) (out_of n 1024) _ k3 in
      subst
        (λ r.
          (r.ip ≡ o.ip)
          × (r.port ≡ o.port)
          × (lookup_string system (codes "user") ≡ some r.user)
          × (lookup_string system (codes "group") ≡ some r.group)
          × (lookup_int system (codes "process_count") ≡ some r.process_count)
          × IsUpTo 1024 r.process_count)
        same
        (
          refl,
          refl,
          need_inv _ o _ h1,
          need_inv _ _ _ h2,
          need_inv _ _ _ h3,
          IsUpTo-out_of 1024 n fits,
        )

  mail_lem :
      (system : Setting) (o after : ServerOpts)
      → read_mail config_lookup lookup_string lookup_int system o ≡ going after
      → (after.ip ≡ o.ip)
        × (after.port ≡ o.port)
        × (after.user ≡ o.user)
        × (after.group ≡ o.group)
        × (after.process_count ≡ o.process_count)
        × (lookup_string system (codes "domain") ≡ some after.domain)
        × (lookup_string system (codes "maildir") ≡ some after.maildir)
  unfolding read_mail
  mail_lem system o after h = ground arith

  address-Stops :
      (system : Setting) (o : ServerOpts)
      → Stops IsRefusal (read_address config_lookup lookup_string lookup_int system o)
  unfolding read_address
  address-Stops system o =
      Stops-need_bind IsRefusal (neg 20) o (lookup_string system (codes "bind_ip")) _
        (λ e. ground arith, λ e. ground arith)
        (λ ip.
          Stops-need_bind IsRefusal (neg 30) _ (lookup_int system (codes "port")) _
            (λ e. ground arith, λ e. ground arith)
            (λ port.
              Stops-refuse IsRefusal (neg 31) (out_of port 65535) _
                (λ e. ground arith, λ e. ground arith)))

  owner-Stops :
      (system : Setting) (o : ServerOpts)
      → Stops IsRefusal (read_owner config_lookup lookup_string lookup_int system o)
  unfolding read_owner
  owner-Stops system o =
      Stops-need_bind IsRefusal (neg 40) o (lookup_string system (codes "user")) _
        (λ e. ground arith, λ e. ground arith)
        (λ user.
          Stops-need_bind IsRefusal (neg 50) _ (lookup_string system (codes "group")) _
            (λ e. ground arith, λ e. ground arith)
            (λ group.
              Stops-need_bind IsRefusal (neg 60) _ (lookup_int system (codes "process_count")) _
                (λ e. ground arith, λ e. ground arith)
                (λ n.
                  Stops-refuse IsRefusal (neg 61) (out_of n 1024) _
                    (λ e. ground arith, λ e. ground arith))))

  mail-Stops :
      (system : Setting) (o : ServerOpts)
      → Stops IsRefusal (read_mail config_lookup lookup_string lookup_int system o)
  unfolding read_mail
  mail-Stops system o =
      Stops-need_bind IsRefusal (neg 70) o (lookup_string system (codes "domain")) _
        (λ e. ground arith, λ e. ground arith)
        (λ domain.
          Stops-need_bind IsRefusal (neg 80) _ (lookup_string system (codes "maildir")) _
            (λ e. ground arith, λ e. ground arith) (λ maildir. tt))

  opts-Stops :
      (o : ServerOpts) (config : Config)
      → Stops IsRefusal (read_opts config_lookup lookup_string lookup_int o config)
  unfolding read_opts
  opts-Stops o config =
      Stops-need_bind IsRefusal (neg 10) o (config_lookup config (codes "system")) _
        (λ e. ground arith, λ e. ground arith)
        (λ system.
          Stops-bind IsRefusal (read_address config_lookup lookup_string lookup_int system o) _
            (address-Stops system o)
            (λ o1.
              Stops-bind IsRefusal (read_owner config_lookup lookup_string lookup_int system o1) _
                (owner-Stops system o1) (λ o2. mail-Stops system o2)))

  accepted_lem :
      (before after : ServerOpts) (config : Config)
      → read_opts config_lookup lookup_string lookup_int before config ≡ going after
      → Holds config after
  unfolding read_opts
  accepted_lem before after config h =
      let (system, h0, k0) =
        >>=-eq-going (need (neg 10) before (config_lookup config (codes "system"))) _ h in
      let (o1, h1, k1) =
        >>=-eq-going (read_address config_lookup lookup_string lookup_int system before) _ k0 in
      let (o2, h2, k2) =
        >>=-eq-going (read_owner config_lookup lookup_string lookup_int system o1) _ k1 in
      let (ip, port, fits) = address_lem system before o1 h1 in
      let (ip2, port2, user, group, n, n_fits) = owner_lem system o1 o2 h2 in
      let (ip3, port3, user3, group3, n3, domain, maildir) = mail_lem system o2 after k2 in
      (
        system,
        need_inv (neg 10) before _ h0,
        ground (arith, ip, ip2, ip3),
        ground (arith, port, port2, port3),
        ground (arith, user, user3),
        ground (arith, group, group3),
        ground (arith, n, n3),
        domain,
        maildir,
        rw (port3, port2) fits,
        rw n3 n_fits,
      )

  accepts_lem :
      (before after : ServerOpts) (config : Config)
      → Holds config after
      → read_opts config_lookup lookup_string lookup_int before config ≡ going after
  unfolding read_opts read_address read_owner read_mail
  accepts_lem before after config (system, e0, e1, e2, e3, e4, e5, e6, e7, fits, n_fits) =
      rw
        (
          e0,
          e1,
          e2,
          out_of-IsUpTo 65535 after.port fits,
          e3,
          e4,
          e5,
          out_of-IsUpTo 1024 after.process_count n_fits,
          e6,
          e7,
        )
        refl

  -- The initialisation returns 0 with certain options if and only if the section `system` of the
  -- configuration has all of these options, the port within 0 to 65535 and the number of processes
  -- within 0 to 1024. What the options were before does not matter.
  pub server_opts_init_lem :
      (before after : ServerOpts) (config : Config)
      → (server_opts_init config_lookup lookup_string lookup_int before config ≡ (pos 0, after))
        ↔ Holds config after
  unfolding server_opts_init
  server_opts_init_lem before after config = (
    λ h. accepted_lem before after config (finish_inv _ (opts-Stops before config) h),
    λ h. ap finish (accepts_lem before after config h),
  )

  -- Every value that the initialisation returns has a text of its own in `server_opts_err`.
  server_opts_init-err :
      (before : ServerOpts) (config : Config)
      → server_opts_err (server_opts_init config_lookup lookup_string lookup_int before config).0
        ≢ unrecognized
  unfolding server_opts_init
  server_opts_init-err before config = finish_err _ (opts-Stops before config)
