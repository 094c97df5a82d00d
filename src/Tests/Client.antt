-- ===== src/Tests/Client.antt =====
-- Inputs for the state machine, the list, the scheduler and the replies of smtp_proj/client.
use pvs_course_project.Base.{
  overrun, if◌then◌else◌, ◌≡◌, refl, ◌+◌, List, [], ◌∷◌, some, Bytes, codes, str_eq, ok, fault,
  wild_pointer, arith, if◌then◌else◌, All,
}
use pvs_course_project.Base.Int.{pos}
use pvs_course_project.Client.Fsm.{
  ev_ok, ev_command_not_implemented, st_init, st_send_helo, is_terminal, client_fsm_step,
}
use pvs_course_project.Client.Fsm.Laws.{arrow, or_exit, client_fsm_step_lem}
use pvs_course_project.Client.MailList.{add_first, remove_first, count}
use pvs_course_project.Client.MailList.Laws.{nodes_of, list_implements_stack}
use pvs_course_project.Client.Scheduler.{
  Process, handles, find_from, min_from, least_loaded, assign, get_mail_proc_idx,
}
use pvs_course_project.Common.Replace.{starts_with}
use pvs_course_project.Tests.Common.{is_free_of, is_free_of-Lacks}
use pvs_course_project.Client.Response.{failed, read_data_from_server, check_server_code}
use pvs_course_project.Client.Response.Reading.{reply, IsChunk, read_data_from_server_lem}

client_fsm_step_lem_example : client_fsm_step st_send_helo ev_command_not_implemented ≡ (
    if is_terminal st_send_helo
    then ok st_init
    else or_exit (arrow st_send_helo ev_command_not_implemented))
client_fsm_step_lem_example = client_fsm_step_lem st_send_helo ev_command_not_implemented

abbrev one_mail : List Bytes
one_mail = codes "/m/1" ∷ []

list_implements_stack_example :
    (count (nodes_of one_mail) ≡ pos 1)
    × (add_first (λ n. n + 8) (nodes_of one_mail) (codes "/m/2")
        ≡ ok (nodes_of (codes "/m/2" ∷ one_mail)))
    × (add_first (λ n. n) (nodes_of one_mail) (codes "/m/2") ≡ fault overrun)
    × (remove_first (nodes_of (codes "/m/2" ∷ one_mail)) ≡ ok (nodes_of one_mail, pos 1))
    × (remove_first (nodes_of []) ≡ fault wild_pointer)
list_implements_stack_example = list_implements_stack (λ n. n + 8) (codes "/m/2") one_mail

-- Two processes, the first with one domain.
abbrev processes : List Process
processes = (codes "a.org" ∷ []) ∷ [] ∷ []

abbrev more_processes : List Process
more_processes = (codes "a.org" ∷ []) ∷ (codes "b.org" ∷ []) ∷ []

new_domain_run : get_mail_proc_idx (λ n. n + 8) (codes "b.org") processes ≡ ok (more_processes, 1)
unfolding get_mail_proc_idx find_from handles least_loaded min_from assign str_eq
new_domain_run = refl

known_domain : find_from (codes "a.org") 0 processes ≡ some 0
unfolding find_from handles str_eq
known_domain = refl

abbrev chunks : List Bytes
chunks = codes "250" ∷ codes " Ok\r\n" ∷ []

chunks-IsChunk : All IsChunk chunks
unfolding is_free_of
chunks-IsChunk = (
  (omega arith, omega arith, is_free_of-Lacks 0 (codes "250") refl),
  ((omega arith, omega arith, is_free_of-Lacks 0 (codes " Ok\r\n") refl), tt),
)

read_run : read_data_from_server chunks failed ≡ ok (some (codes "250 Ok\r\n"))
unfolding read_data_from_server starts_with
read_run = refl

read_data_from_server_lem_example :
    read_data_from_server chunks failed ≡ ok (reply failed [] chunks)
read_data_from_server_lem_example = read_data_from_server_lem chunks failed chunks-IsChunk

fine_run : check_server_code (some (codes "250 Ok\r\n")) ≡ ok ev_ok
unfolding check_server_code
fine_run = refl

missing_run :
    check_server_code (some (codes "502 Command not implemented\r\n"))
    ≡ ok ev_command_not_implemented
unfolding check_server_code starts_with
missing_run = refl
