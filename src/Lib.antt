-- ===== src/Lib.antt =====
-- A key-value store with job files, backups and subscriptions: the server and the client of
-- SOParte2/src, and the programs of SO-Parte1 that the server grew from.
--
-- The server (server/main.c) reads a directory of job files. Threads share the files out, parse
-- each line (server/parser.c), sort the keys of a command, and run it on one hash table
-- (server/operations.c over server/kvs.c), under a lock for each of the 26 buckets and a global
-- one. A host thread puts requests to connect into a buffer of three places; three managers take
-- them and serve a client each, who subscribes to keys and ends subscriptions. The client
-- (client/main.c) parses its standard input (client/parser.c) and writes messages to a pipe
-- (client/api.c).
--
-- The three exercises of SO-Parte1 come before it: a program with one thread (grupo5-ex1), backups
-- in child processes (grupo5-ex2), and threads with locks (grupo5-ex3).
--
-- Which file models which part, with the paths of the sources under SOParte2/src but for
-- the stages:
--   Common            bytes, C strings, runs that end in a value or a fault, tests and lists
--   Input             the static functions that both parsers share: cleanup, read_string, read_uint
--   Transfer          common/io.c and send_msg: read_all, write_all, read_string, delay
--   Server.Kvs        server/kvs.c: write_pair, read_pair, delete_pair, add_subscriber,
--                     remove_subscriber, notify_clients, hash, create_hash_table
--   Server.Parser     server/parser.c: get_next, parse_write, parse_read_delete, parse_wait
--   Server.Sort       insertionSort of server/main.c
--   Server.Operations server/operations.c: kvs_init to kvs_unsubscribe, with locks and output
--   Server.Job        process_job_file of server/main.c, and kvs_backup
--   Server.Job.Script job files as lists of lines, with what they mean for a map from keys to values
--                     and for the output; Server.Job.Refinement is about process_job_file
--   Server.Locking    threads that take the locks of the operations side by side
--   Server.Serial     threads whose calls of kvs_write, kvs_read and kvs_delete interleave access by
--                     access, behind the bucket locks, against the same calls one after the other
--   Server.Directory  process_job_directory and thread_process_files of server/main.c
--   Server.Registration  host_FIFO and the head of thread_manage_session of server/main.c, with the
--                     sscanf of the request to connect
--   Server.Session    the request loop of thread_manage_session
--   Client.Parser     client/parser.c: get_next, parse_list, parse_delay
--   Client.Api        client/api.c: kvs_connect, kvs_disconnect, kvs_subscribe, kvs_unsubscribe
--   Client.Main       main of client/main.c
--   Client.Notifications  thread_notif of client/main.c
--   Stages.Table      kvs.c of SO-Parte1/grupo5-ex1, with the server's table beside it
--   Stages.First      operations.c and main.c of SO-Parte1/grupo5-ex1
--   Stages.Second     main.c and kvs_backup of SO-Parte1/grupo5-ex2
--   Stages.Third      operations.c and main.c of SO-Parte1/grupo5-ex3, on the table of Stages.Table
--   Tests             the theorems at concrete inputs
-- The modules below each of these hold the proofs about it.
--
-- How the code is read. A file that is read is the list of bytes left in it, and each parser
-- returns the bytes that it leaves. Undefined behaviour is a value, `fault`, with its kind. An
-- operation on the table returns the new table, the status and the list of locks taken, locks
-- released and bytes written, in order. `malloc`, `fork`, `wait` and what `read` and `write`
-- return are arguments. A descriptor is a number, and what `malloc` leaves in the places of a new
-- node is taken for such numbers, although an `int` there may be negative. The host and the
-- managers are a step relation, and so are the threads that share the files, with the mutex that
-- they take. Threads that use the table side by side are interleaved lock by lock; a lock is
-- taken for reading while no thread holds it for writing, and for writing while none holds it at
-- all; the mutex of the backups is one more lock. The `wait` for a child is taken to return,
-- since a child takes no lock. In Server.Serial they are interleaved access by access too: an
-- access is what one pass of a loop does to the chain of one key. There the global lock is left
-- out, and locks may be given back in any order.
--
-- Fuel and bounds. The loop over the commands of a file runs on fuel, one unit more than the file
-- has bytes: each command takes a byte at least. The client's loop runs on fuel that is an argument,
-- since it does not end where its input does. Integers that can wrap keep their 32 bits.
--
-- Not modelled: messages to the standard error; opening, making and removing files and pipes, but
-- for those of kvs_connect; main of the server, which makes threads, mutexes and semaphores and
-- joins threads that never return; the parsers of SO-Parte1, the operations of its second
-- exercise but for kvs_backup, and the sort and the sharing of files in its third, which are the
-- text of the server or of the first exercise but for small changes.
pub mod Common
pub mod Input
pub mod Transfer
pub mod Server
pub mod Stages
pub mod Client
mod Tests
