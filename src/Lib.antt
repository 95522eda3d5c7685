-- ===== src/Lib.antt =====
-- The simulator of process scheduling and memory management in project1, the Mastermind server and
-- client in project2, and the exercises in workshop.
--
-- The parts of project1. A simulation reads processes from a file, creates them when their time has
-- come and runs them by one of two schedulers. A process runs only with its memory in main memory, to
-- which a scheduler brings it by swapping.
--
--   Segments      project1/memory-management.c, the free list: a list of segments,
--                 highest address first.
--   Processes     project1/memory-management.c, the list of process memories. A pointer to one is its
--                 position in the list.
--   Swap          project1/memory-management.c, swap_in_process_memory, swap_out_process_memory and
--                 swap_out_process_memory_by_process_memory, on both lists (Memory). The last lines
--                 of the two swap-outs, which are the same, are `release`.
--   Parser        project1/process-data-file-parser.c, the scheduled processes, and
--                 parse_process_data_file over the tokens that strtok() gives for each line.
--   Scheduler     project1/process-scheduler.c, process control blocks and the queues of
--                 them, a queue being a list; what a scheduler does with one block; check_scheduled_processes.
--   Simulation    project1/process-scheduler.c, the variables and the steps that both runners share.
--   Fcfs          project1/process-scheduler.c, fcfs_scheduler_runner, the body of whose
--                 loop is fcfs_round.
--   Multi         project1/process-scheduler.c, multi_scheduler_runner, with the three queues
--                 of ready_qs.
--   CommandLine   project1/simulation.c: the options, and the runner that they ask for, which opens
--                 the file and has it parsed.
--
-- The parts of project2. The server accepts clients; a thread for each plays Mastermind with the
-- client over a socket.
--
--   SecretCode    project2/secret-code.c: the test of a code, a random code, the feedback on a guess.
--   Messages      project2/message-helpers.c: a whole message over a socket, in five attempts at most.
--   Server        project2/server.c, pthread_routine: the thread that plays one game, with the
--                 counters and the log that the threads share, as this thread alone changes them; and
--                 send_gp_message, which ends the thread when a message cannot be sent. Server/Accept
--                 is the loop of main that accepts clients, among the threads, of which it sees how
--                 they count. Server/Startup is main up to this loop, Server/Receiving
--                 receive_raw_message, which nothing calls, and Server/Shutdown the handler of SIGINT and
--                 SIGTERM, of which each thread sees the mutex of the log file.
--   Decimal       how printf() writes a number and atoi() reads one, as project2 uses them.
--   PrintHelpers  project2/print-helpers.c: the beginning of a line of the log.
--   ResourceUsage project2/resource-usage.c: a number of /proc/self/status, which is lines of text.
--   Client        project2/client.c: the loop that reacts to the messages of the server; Startup is
--                 main around it.
--
-- The exercises in workshop.
--
--   Heap          memory with linked nodes: a map from addresses to nodes, and the commands that
--                 read, write, allocate and free one. A run that reads or frees what is not
--                 allocated `faults`, one that fails an assert() `aborts`.
--   LinkedList    workshop/linked-list.c: the list as a struct of head, foot and size over the heap.
--                 list_of and Holds (LinkedList/Shape) say for which struct and memory this is a given
--                 list of nodes.
--   Producers     workshop/producer-consumer-problem.c and producer-consumer-problem-semaphore.c: the buffer
--                 and the critical sections that both have, one access at a time. Producers/Mutex and
--                 Producers/Semaphores are the threads of the two programs, given by where they are, and
--                 their runs, given by the order in which the threads step.
--   Shell         workshop/my-shell.c: strlen, strcmp and strsplit, on arrays of characters, and in
--                 Shell/Command strscan and the reading of a command. Shell/Session is main(), with the
--                 handler of the timeout and the calls of the system as a record of functions.
--   Primes        workshop/signal-prime-number.c: isprimeno, and in Primes/Announcing main() of the parent
--                 process and the handler of the child.
--
-- The files below a part: Segments/Coverage, Segments/Tidy and Segments/Placement on the free list;
-- Processes/Updates on the process memories; Swap/Invariant (IsConsistent: the free segments and the
-- process memories share out the addresses), Swap/Victim, Swap/SwapOut, Swap/SwapIn and Swap/Release
-- on both; Scheduler/Queue, Scheduler/Loading and Scheduler/Arrivals on the functions of those names,
-- and Scheduler/Work on the time that is left; Simulation/Sound and Simulation/Loop on what both
-- runners share; CommandLine/Arguments on the options and CommandLine/Whole on the program; for each
-- runner Invariant on what holds between the rounds, Execute and Start on the
-- two halves of a round, and Runner on the whole; SecretCode/Tally, SecretCode/Feedback and
-- SecretCode/Guess on the feedback, SecretCode/Validity on the test of a code; Messages/Receive,
-- Messages/Send and Messages/Whole; Heap/Cells on rows of linked nodes; LinkedList/Position,
-- LinkedList/Growth, LinkedList/Insert, LinkedList/Removal, LinkedList/Remove and LinkedList/Pop on
-- the functions of a list, LinkedList/Search with the functions that go through all of it,
-- Search/Erase and Search/Traverse on them; Producers/Order on the critical sections,
-- Producers/Threads on threads of which one is in them, in Mutex and in Semaphores each, on the two
-- programs, Place on where a thread is, Moving on the kinds of step, Handling on the steps of the
-- functions, and Safety on the whole, and Semaphores/Blocked on threads that wait at the end;
-- Shell/Words, Shell/Split and Shell/Compare on the strings, Command/Line on what is typed,
-- Session/Turns on a round of the loop and Session/Commands on a whole session; and
-- Server/Serving, Server/Session, Server/Routine and Server/Run on a thread from its parts to the
-- whole, Accept/Counts and Accept/Limit on the loop, Startup/Setup on the start, Shutdown/Reports,
-- Shutdown/Phases, Shutdown/Steps and Shutdown/Exit on the handler among the threads,
-- Shutdown/Ending and Shutdown/Waiting on how it ends and when it does not; Client/Reactions on a message at the
-- client, Play/Rounds and Play/Whole on its whole game and Client/Startup/Ending on its main,
-- PrintHelpers/Reading on the printed text,
-- ResourceUsage/Field on a field, and Announcing/Told on the signals.
-- Base has shared names and lemmas, and Examples runs the model and applies the theorems to concrete
-- inputs.
--
-- How the source is read. An `int` is a natural number: sizes, times, addresses and ids are taken
-- to be non-negative and small enough not to overflow; the address IN_DISK, which is -1, is the
-- constructor in_disk. A block's start address is its upper end, so that it holds the `size`
-- addresses under it. malloc() is taken to succeed, but in workshop/linked-list.c and in the loop
-- of project2/server.c, where what it gives is an argument. A read of a pointer that was never
-- assigned, a division by 0 and a read past the end of an array give `undefined`. A printed line
-- is a value at the end of the output. Arrays that a null pointer ends are lists. read(), write(),
-- rand(), fgets() and atoi() are parameters, as are the texts that the server shows; what is
-- documented of the first two is a hypothesis of the theorems about Messages and Play (IsStream).
-- Of a socket it is also documented that what is written does not change what is to come
-- (IsDuplex).
--
-- Fuel. The `while` loop of swap_in_process_memory has fuel, one more than the number of process
-- memories in memory being enough, since each round but the last moves one to the disk; load_pcb
-- gives it one more than the number of process memories. The loops of the runners have fuel too:
-- more than the total job time plus the last start time plus 1 is enough, since each round lowers
-- the work that is left or brings the next start time nearer.
--
-- The inner loop of pthread_routine, which asks again after an invalid guess, has fuel for each turn;
-- a client may send invalid guesses for ever, and no fuel is enough for such a one.
--
-- The loops over the nodes of a list, over the characters of a string and over the divisors of a
-- number have a round for each and one more, which is enough. The reading of a line has fuel, more
-- than its length being enough. A run of threads, or of the loop that accepts clients, is a list
-- of steps, of any length and in any order: there is no fuel, and what is said of a run is said of
-- every list. The loop of the client has a round for each message of the game, and one more for
-- the test behind the last.
--
-- Not modelled: the functions that print or deallocate, but for freelinkedlist; the arguments and the
-- set-up of the main functions of the producers and consumers; the interleaving of the games that
-- the threads of project2/server.c play; and in workshop the course samples, which show calls of
-- the system.
pub mod Base
pub mod Segments
pub mod Processes
pub mod Swap
pub mod Parser
pub mod Scheduler
pub mod Simulation
pub mod CommandLine
pub mod Fcfs
pub mod Multi
pub mod Decimal
pub mod PrintHelpers
pub mod ResourceUsage
pub mod Heap
pub mod LinkedList
pub mod Producers
pub mod Shell
pub mod Primes
pub mod SecretCode
pub mod Messages
pub mod Server
pub mod Client
pub mod Examples
