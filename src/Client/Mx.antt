-- ===== src/Client/Mx.antt =====
-- smtp_proj/client/src/mx_utils.c: the mail server of a domain and its address, with
-- `connect_to_mail_server` of smtp_proj/client/src/smtp_client.c. The resolver is a parameter.
pub mod Stale
use pvs_course_project.Base.{
  ℕ, Bool, true, false, List, [], ◌∷◌, Option, none, some, Bytes, codes, str_eq, Run, ok, fault,
  null_pointer, wild_pointer, ◌>>=◌, if◌then◌else◌,
}
use pvs_course_project.Base.Int.{ℤ, pos, neg, ltb_ℤ}

-- The first record of an answer: a server, a record of another type, or none, where the type that is
-- read was never set.
pub data FirstRecord : Type 0 where
  mx : Bytes → FirstRecord
  other_type unset_type : FirstRecord

-- `res_query`, with `none` for a result below 0, and `gethostbyname`, with `none` for a null pointer.
pub record Resolver : Type 0 where
  pub res_query : Bytes → Option FirstRecord
  pub gethostbyname : Bytes → Option Bytes

pub record SockAddr : Type 0 where
  pub sin_family : ℕ
  pub sin_port : ℕ
  pub sin_addr : Bytes

abbrev af_inet : ℕ
af_inet = 2

-- `mx_server` is static: it keeps the last server that was found.
abbrev after_query : Bytes → Option FirstRecord → Run (Option Bytes × Bytes)
after_query mx_server none = ok (none, mx_server)
after_query mx_server (some (mx name)) = ok (some name, name)
after_query mx_server (some other_type) = ok (some mx_server, mx_server)
after_query mx_server (some unset_type) = fault wild_pointer

unfoldable get_domain_mx_server_name : Resolver → Bytes → Bytes → Run (Option Bytes × Bytes)
get_domain_mx_server_name resolver domain_name mx_server =
    if str_eq domain_name (codes "localhost.com")
    then ok (some (codes "localhost"), mx_server)
    else after_query mx_server (resolver.res_query domain_name)

-- The structure is zeroed where the host is not known.
abbrev pub address : Option Bytes → SockAddr
address none = record { sin_family = 0; sin_port = 0; sin_addr = [] }
address (some ip) = record { sin_family = af_inet; sin_port = 25; sin_addr = ip }

unfoldable get_domain_server_info : Resolver → Option Bytes → Run SockAddr
get_domain_server_info resolver none = fault null_pointer
get_domain_server_info resolver (some name) = ok (address (resolver.gethostbyname name))

-- The two calls of `register_new_email` in smtp_proj/client/src/domain_proc.c.
unfoldable pub find_server : Resolver → Bytes → Bytes → Run (SockAddr × Bytes)
unfolding get_domain_mx_server_name get_domain_server_info
find_server resolver domain mx_server = do
  (res, found) ← get_domain_mx_server_name resolver domain mx_server
  server ← get_domain_server_info resolver res
  ok (server, found)

-- A socket whose connection fails is not closed: it is in the list of the second result.
unfoldable connect_to_mail_server : ℤ → ℤ → ℤ × List ℤ
connect_to_mail_server socket connect =
    if ltb_ℤ socket (pos 0)
    then (neg 1, [])
    else (if ltb_ℤ connect (pos 0) then (neg 1, socket ∷ []) else (socket, []))
