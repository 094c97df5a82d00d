-- ===== src/Client/Mx/Stale.antt =====
-- Servers that are not those of the domain (smtp_proj/client/src/mx_utils.c).
use pvs_course_project.Base.{
  ◌≡◌, refl, true, false, some, none, ◌⊎◌, inl, inr, List, [], ◌∷◌, ◌++◌, Bytes, codes, str_eq, Run,
  ok, fault, null_pointer, ◌>>=◌, All,
}
use pvs_course_project.Client.Mx.{mx, other_type, address, Resolver, SockAddr, find_server}

-- The servers of domains that are registered one after another.
unfoldable pub find_servers : Resolver → List Bytes → Bytes → Run (List SockAddr × Bytes)
unfolding find_server
find_servers resolver [] mx_server = ok ([], mx_server)
find_servers resolver (domain ∷ domains) mx_server = do
  (server, found) ← find_server resolver domain mx_server
  (servers, last) ← find_servers resolver domains found
  ok (server ∷ servers, last)

-- The domain for which no query is made, or whose answer does not begin with an MX record.
abbrev HasNoMx : Resolver → Bytes → Type 0
HasNoMx resolver domain =
    (str_eq domain (codes "localhost.com") ≡ true)
    ⊎ ((str_eq domain (codes "localhost.com") ≡ false)
        × (resolver.res_query domain ≡ some other_type))

kept_lem :
    (resolver : Resolver) (between : List Bytes) (second server : Bytes)
    → All (HasNoMx resolver) between
    → str_eq second (codes "localhost.com") ≡ false
    → resolver.res_query second ≡ some other_type
    → (others : List SockAddr) × (find_servers resolver (between ++ second ∷ []) server
        ≡ ok (others ++ address (resolver.gethostbyname server) ∷ [], server))
unfolding find_servers
kept_lem resolver [] second server no_mx apart other = ([], rw (apart, other) refl)
kept_lem resolver (d ∷ between) second server (inl local, no_mx) apart other =
    let (others, run) = kept_lem resolver between second server no_mx apart other in
    (address (resolver.gethostbyname (codes "localhost")) ∷ others, rw (local, run) refl)
kept_lem resolver (d ∷ between) second server (inr (there, typed), no_mx) apart other =
    let (others, run) = kept_lem resolver between second server no_mx apart other in
    (address (resolver.gethostbyname server) ∷ others, rw (there, typed, run) refl)

-- The static buffer is kept between domains: once the server of one domain has been found, whatever
-- was in the buffer before, and however many domains without an MX record have been looked up since,
-- a domain whose answer does not begin with an MX record gets the very address of the first, and so
-- its mails. For a domain that the resolver cannot answer for, the call that should look up the
-- address reads through a null pointer.
pub stale_server :
    (resolver : Resolver) (first : Bytes) (between : List Bytes)
    (second lost server mx_server : Bytes)
    → str_eq first (codes "localhost.com") ≡ false
    → str_eq second (codes "localhost.com") ≡ false
    → str_eq lost (codes "localhost.com") ≡ false
    → All (HasNoMx resolver) between
    → resolver.res_query first ≡ some (mx server)
    → resolver.res_query second ≡ some other_type
    → resolver.res_query lost ≡ none
    → (addr : SockAddr) × (others : List SockAddr) × (find_servers resolver
          (first ∷ (between ++ second ∷ []))
          mx_server
        ≡ ok (addr ∷ (others ++ addr ∷ []), server))
      × (find_server resolver lost server ≡ fault null_pointer)
unfolding find_servers
stale_server resolver first between second lost server mx_server apart₁ apart₂ apart₃ no_mx found
      other none_found =
    let (others, run) = kept_lem resolver between second server no_mx apart₂ other in
    (
      address (resolver.gethostbyname server),
      others,
      rw (apart₁, found, run) refl,
      rw (apart₃, none_found) refl,
    )
