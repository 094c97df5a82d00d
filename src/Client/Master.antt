-- ===== src/Client/Master.antt =====
-- The loop of `master_process_worker_start` in smtp_proj/client/src/scheduler.c: the mails that
-- `get_domains_mails` finds are put on the message queues of the worker processes.
pub mod Idle
pub mod Wait
use pvs_course_project.Base.{
  ℕ, zero, suc, Bool, List, [], ◌∷◌, ◌++◌, Option, Bytes, Run, ok, fault, wild_pointer, strcpy,
  ◌>>=◌, ◌==◌, if◌then◌else◌,
}
use pvs_course_project.Base.Int.{ℤ, pos}
use pvs_course_project.Client.Scheduler.{Process, get_mail_proc_idx}
use pvs_course_project.Client.Collect.{User, DomainMails, rounds, get_domains_mails}

-- `char mtext[500]` of a message
abbrev pub mtext_size : ℕ
mtext_size = 500

-- What the queue of each process holds.
abbrev pub Queues : Type 0
Queues = ℕ → List Bytes

-- `usable n` is the size of the block that `malloc(n)` returns; `has_room` tells whether `msgsnd`
-- finds room on a queue, which it does not wait for.
module _ (usable : ℕ → ℕ) (has_room : List Bytes → Bool) where
  unfoldable pub msgsnd : ℕ → Bytes → Queues → Queues
  msgsnd idx text queues j =
      if idx == j
      then (if has_room (queues j) then queues j ++ text ∷ [] else queues j)
      else queues j

  -- The inner loop, over the first paths of a domain; each path is freed when it has been copied.
  unfoldable send_mails : ℕ → ℕ → List Bytes → Queues → Run Queues
  unfolding msgsnd
  send_mails idx zero paths queues = ok queues
  send_mails idx (suc n) [] queues = fault wild_pointer
  send_mails idx (suc n) (path ∷ paths) queues =
      strcpy mtext_size path >>= λ mtext. send_mails idx n paths (msgsnd idx mtext queues)

  -- The paths of the entry are reset by `memset`.
  unfoldable dispatch_domain :
      DomainMails → List Process → Queues → Run (DomainMails × List Process × Queues)
  unfolding send_mails get_mail_proc_idx
  dispatch_domain d procs queues = do
    (next, domain_proc_idx) ← get_mail_proc_idx usable d.domain procs
    sent ← send_mails domain_proc_idx (rounds d.mails_count) d.mails_paths queues
    ok (record d { mails_count = pos 0; mails_paths = [] }, next, sent)

  unfoldable dispatch_all :
      List DomainMails → List Process → Queues → Run (List DomainMails × List Process × Queues)
  unfolding dispatch_domain
  dispatch_all [] procs queues = ok ([], procs, queues)
  dispatch_all (d ∷ table) procs queues = do
    (d1, next, sent) ← dispatch_domain d procs queues
    (others, procs1, queues1) ← dispatch_all table next sent
    ok (d1 ∷ others, procs1, queues1)

-- One turn of the loop; the directories are what `opendir` and `readdir` give in it.
unfoldable pub master_turn :
    (ℕ → ℕ)
    → (ℕ → ℤ)
    → (List Bytes → Bool)
    → Bytes
    → Option (List User)
    → List DomainMails × List Process × Queues
    → Run (List DomainMails × List Process × Queues)
unfolding get_domains_mails dispatch_all
master_turn usable fresh has_room mail_dir users (table, procs, queues) =
    get_domains_mails usable fresh mail_dir users table >>= λ found.
    dispatch_all usable has_room found procs queues

-- The loop, over what the directories hold in its turns.
unfoldable pub master_loop :
    (ℕ → ℕ)
    → (ℕ → ℤ)
    → (List Bytes → Bool)
    → Bytes
    → List (Option (List User))
    → List DomainMails × List Process × Queues
    → Run (List DomainMails × List Process × Queues)
unfolding master_turn
master_loop usable fresh has_room mail_dir [] state = ok state
master_loop usable fresh has_room mail_dir (users ∷ later) state =
    master_turn usable fresh has_room mail_dir users state
    >>= master_loop usable fresh has_room mail_dir later
