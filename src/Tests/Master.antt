-- ===== src/Tests/Master.antt =====
-- The master of smtp_proj/client, without and with a mail.
use pvs_course_project.Base.{
  ℕ, ◌+◌, ◌≡◌, refl, List, [], ◌∷◌, some, none, codes, str_eq, ok, fault, underrun, overrun,
}
use pvs_course_project.Base.Int.{pos}
use pvs_course_project.Common.Split.{str_split}
use pvs_course_project.Common.Dirs.{
  get_user_new_dir_full_path, get_domain_name_from_email_full_path,
}
use pvs_course_project.Client.Scheduler.{Process}
use pvs_course_project.Client.Collect.{User, DomainMails, get_domains_mails}
use pvs_course_project.Client.Master.{Queues}
use pvs_course_project.Client.Master.Wait.{wait_for}

abbrev usable : ℕ → ℕ
usable n = n + 8

-- No mail, and two mails.
abbrev idle : List User
idle = (codes "..", none) ∷ (codes "ann", some (codes "." ∷ codes ".." ∷ [])) ∷ []

abbrev busy : List User
busy = (codes "ann", some (codes "7.100.b.org.mbox" ∷ codes "7.101.b.org.mbox" ∷ [])) ∷ []

idle_run : get_domains_mails usable (λ i. pos 0) (codes "/m/") (some idle) [] ≡ ok []
unfolding get_domains_mails str_eq get_user_new_dir_full_path
idle_run = refl

busy_run : get_domains_mails usable (λ i. pos 0) (codes "/m/") (some busy) [] ≡ fault underrun
unfolding get_domains_mails str_eq str_split get_user_new_dir_full_path
    get_domain_name_from_email_full_path
busy_run = refl

-- `malloc` gives just what it is asked for.
tight_run : get_domains_mails (λ n. n) (λ i. pos 0) (codes "/m/") (some busy) [] ≡ fault overrun
unfolding get_domains_mails str_eq str_split get_user_new_dir_full_path
    get_domain_name_from_email_full_path
tight_run = refl

abbrev no_domains : List DomainMails
no_domains = []

abbrev processes : List Process
processes = (codes "a.org" ∷ []) ∷ [] ∷ []

abbrev queues : Queues
queues j = []

abbrev start : List DomainMails × List Process × Queues
start = ([], processes, queues)

wait_run : wait_for (λ k. k + 100) 25 25 ≡ some 25
unfolding wait_for
wait_run = refl
