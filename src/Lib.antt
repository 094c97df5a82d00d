-- ===== src/Lib.antt =====
-- A model of the mail system in smtp_proj: a server that takes mails by SMTP and stores them in a
-- maildir, a client that reads a maildir and sends its mails on, and the string and directory
-- functions that both share (smtp_proj/common).
--
-- Parts and files. A C function that may meet undefined behaviour, exit or fail an assertion returns
-- a `Run` (Base/Outcome); a function with early returns that keep what was set before them is a
-- `Reading` (Base/Reading). Text is the list of its bytes without the final NUL (Base/Text), and a
-- copy into a block checks the size of the block. Where the size of a block that malloc returns
-- matters, it is a parameter, `usable`.
--   Common: str_split (Split), str_replace (Replace) and the path functions (Dirs) of
--     smtp_proj/common/src, with strtok (Strtok) and strstr of the C library. Join is the inverse of
--     Split. Calendar is the text of numbers and times, as printf and strftime write them.
--   Server, smtp_proj/server/src: the state machine of smtp_proj/server/proto/smtp.tpl (Fsm), the
--     patterns (Pattern), the clock (Stopwatch), the letter (Letter), the maildir (Maildir), the
--     connection (Conn), the options and ids (Config), and protocol.c: the replies and tables
--     (Protocol), the handlers process_helo to process_quit (Handlers, helo_handler and so on), and
--     protocol_update (Update). Session passes the texts of a client to update_conn, the body of the
--     loop of protocol_update, one by one. Loop is conn_update of conn.c, which reads from the sockets
--     into the connections and sends their replies, and Worker is the loop at the end of conn_accept.
--     Boot is main of server.c and the rest of conn.c: the listener, prefork, conn_destroy and the
--     signal handlers. Log is log.c with the macro LOG of smtp_proj/server/include/log.h.
--   Client, smtp_proj/client/src: the generated state machine client-fsm.c (Fsm), list.c (MailList),
--     the replies (Response) and requests (Requests) of smtp_client.c, and domain_proc.c: the mails of
--     a worker (Domain) and get_domains_mails (Collect). Of scheduler.c, Scheduler is
--     get_mail_proc_idx, Master the loop of the master and wait_for (Master/Wait), and Child one turn
--     of a worker. Options is client.c, Mx is mx_utils.c with connect_to_mail_server, and Log is
--     log.c. Requests keeps what is written to the sockets and the text that strtok keeps between its
--     calls, of which a process has one.
--   Tests: runs on concrete inputs, and the theorems applied to them.
--
-- How the parts interact: main of the server forks the log process and calls conn_accept, which forks
-- the workers; a worker calls conn_update and protocol_update in turn. protocol_update calls the
-- patterns, steps the state machine, and calls the handler of the new state, which changes the
-- connection, its letter and the maildir. The master of the client gathers the mails with
-- get_domains_mails, chooses a worker with get_mail_proc_idx and sends the paths to its queue. A
-- worker takes a path off its queue, gives it to register_new_email, and serves the sockets that
-- select finds: handle_write_socket sends what the state of a domain asks for, and handle_read_socket
-- reads the reply, turns its code into an event, and steps the state machine of the client.
--
-- Parameters: pcre, libconfig, the resolver, the calls on users, groups and processes, and the state
-- machine that AutoFSM generates for the server, which is not in the repository; what AutoFSM
-- documents is the record IsAutoFsm. The clock, the host, the files, the listings of directories, and
-- the results of select, accept, recv, send, write, connect and of the calls on queues are arguments.
-- Where the client reads a count that it has not set, its value is a parameter too (`fresh` of Collect).
-- Nothing is assumed of malloc but, where a theorem says so, that it gives what it is asked for.
--
-- Fuel: the loop of str_split over its tokens has as much fuel as the text has bytes and two more, and
-- the loop of send_msg_body as the kept text has bytes and one more; each token takes at least one
-- byte, so that neither runs out. The loop of wait_for has the number of calls of time as its fuel.
-- The loops of the processes, which have no end, run over a list of what the system calls give.
--
-- Not modelled: the last statements of the loop of a worker of the client (scheduler.c), which use
-- names that are declared nowhere and return from the function, so that the worker makes no second
-- turn; the forks of run_client and the making of the queues; the functions
-- shutdown_master_properly, shutdown_child_properly and stop_logger, which nothing calls, and
-- close_all_conns; the closing of the file in logger_stop and in the signal handler of the log
-- process; and the tests.
pub mod Base
pub mod Common
pub mod Server
pub mod Client
pub mod Tests
