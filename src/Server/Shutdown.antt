-- ===== src/Server/Shutdown.antt =====
-- project2/server.c, sig_handler(): it runs on one of the threads, whose own steps wait for its end, among the
-- steps of the other threads. Of these the ones on the log file and its mutex and on the counters are seen.
pub mod Reports
pub mod Phases
pub mod Steps
pub mod Exit
pub mod Waiting
pub mod Ending
use comp.Base.{
  ℕ, ◌+◌, List, [], ◌∷◌, ◌++◌, Option, none, some, Bool, true, false, ◌==◌, ◌||◌, if◌then◌else◌,
}
use comp.Server.{
  LogEntry, server_shutdown, clients_connected, clients_guessed, user_time, kernel_time,
  peak_memory, current_memory, Shared,
}
use comp.Server.Startup.{
  Mutex, log_file_mutex, clients_now_count_mutex, clients_count_mutex, clients_win_count_mutex,
}

abbrev pub sigint : ℕ
sigint = 2

abbrev pub sigterm : ℕ
sigterm = 15

-- What getrusage() and get_proc_self_status_info() give.
pub record Usage : Type 0 where
  pub user : ℕ
  pub kernel : ℕ
  pub peak : ℕ
  pub current : ℕ

-- The lines on the session that the handler prints.
pub data ReportLine : Type 0 where
  shutdown_line connected_line guessed_line : ReportLine
  user_line kernel_line peak_line current_line : ReportLine

abbrev pub report_lines : List ReportLine
report_lines =
    shutdown_line ∷ connected_line ∷ guessed_line ∷ user_line ∷ kernel_line ∷ peak_line
    ∷ current_line ∷ []

-- The mutexes that it destroys.
abbrev pub destroyed_mutexes : List Mutex
destroyed_mutexes = log_file_mutex ∷ clients_count_mutex ∷ clients_win_count_mutex ∷ []

-- The handler has not been called or has returned; is at pthread_mutex_lock(); is at the lines that are left,
-- behind which it closes the file; is at pthread_mutex_unlock(), behind pthread_attr_destroy(), of which
-- nothing is seen; is at the mutexes that are left; or has ended the process.
pub data Handler : Type 0 where
  returned : Handler
  locking : Handler
  reporting : List ReportLine → Handler
  unlocking : Handler
  destroying : List Mutex → Handler
  exited : ℕ → Handler

-- `holder` is the thread that has log_file_mutex. `is_defined` is false once a thread has used the file after
-- it was closed, or a mutex after it was destroyed; from there on nothing is known of the process.
pub record Process : Type 0 where
  pub shared : Shared
  pub holder : Option ℕ
  pub is_listening : Bool
  pub is_log_open : Bool
  pub destroyed : List Mutex
  pub is_defined : Bool
  pub handler : Handler

-- Up to the lock.
pub sig_handler : ℕ → Process → Process
sig_handler sig_number p =
    if sig_number == sigint || sig_number == sigterm
    then record p { is_listening = false; handler = locking }
    else p

-- A line, with the counts of the moment.
abbrev pub entry_of : Usage → Shared → ReportLine → LogEntry
entry_of usage shared shutdown_line = server_shutdown
entry_of usage shared connected_line = clients_connected shared.clients_count
entry_of usage shared guessed_line = clients_guessed shared.clients_win_count
entry_of usage shared user_line = user_time usage.user
entry_of usage shared kernel_line = kernel_time usage.kernel
entry_of usage shared peak_line = peak_memory usage.peak
entry_of usage shared current_line = current_memory usage.current

-- The thread `me` takes the mutex, when it is free.
pub lock : ℕ → Option ℕ → Process → Process
lock me none p = record p { holder = some me; handler = reporting report_lines }
lock me (some i) p = p

-- What the handler does next. `succeeds` is the result of a call of pthread_mutex_destroy(); that it has
-- failed is printed on the terminal only.
pub handler_step : Usage → ℕ → Bool → Handler → Process → Process
unfolding lock
handler_step usage me succeeds returned p = p
handler_step usage me succeeds locking p = lock me p.holder p
handler_step usage me succeeds (reporting []) p = record p {
  is_log_open = false;
  handler = unlocking;
}
handler_step usage me succeeds (reporting (line ∷ lines)) p = record p {
  shared = record (p.shared) { log = (p.shared).log ++ entry_of usage p.shared line ∷ [] };
  handler = reporting lines;
}
handler_step usage me succeeds unlocking p = record p {
  holder = none;
  handler = destroying destroyed_mutexes;
}
handler_step usage me succeeds (destroying []) p = record p { handler = exited 0 }
handler_step usage me succeeds (destroying (mutex ∷ mutexes)) p = record p {
  destroyed = if succeeds then mutex ∷ p.destroyed else p.destroyed;
  handler = destroying mutexes;
}
handler_step usage me succeeds (exited status) p = p

-- What a thread does.
pub data Action : Type 0 where
  locks : Action
  unlocks : Action
  prints : LogEntry → Action
  counts_client : Action
  counts_win : Action

pub has_lock : ℕ → Option ℕ → Bool
has_lock i none = false
has_lock i (some j) = i == j

-- The mutex after pthread_mutex_lock(), where a thread waits while another has it.
pub take_lock : ℕ → Option ℕ → Option ℕ
take_lock i none = some i
take_lock i (some j) = some j

pub leave_lock : ℕ → Option ℕ → Option ℕ
unfolding has_lock
leave_lock i holder = if has_lock i holder then none else holder

-- A thread prints with the mutex only. The file must be open.
pub print_held : ℕ → LogEntry → Process → Process
unfolding has_lock
print_held i e p =
    if has_lock i p.holder
    then (if p.is_log_open
        then record p { shared = record (p.shared) { log = (p.shared).log ++ e ∷ [] } }
        else record p { is_defined = false })
    else p

-- The mutexes by their number.
mutex_number : Mutex → ℕ
mutex_number log_file_mutex = 0
mutex_number clients_now_count_mutex = 1
mutex_number clients_count_mutex = 2
mutex_number clients_win_count_mutex = 3

pub is_destroyed : Mutex → List Mutex → Bool
unfolding mutex_number
is_destroyed mutex [] = false
is_destroyed mutex (m ∷ mutexes) =
    mutex_number mutex == mutex_number m || is_destroyed mutex mutexes

-- What a thread does with a mutex, which must not be destroyed; the mutexes of the counters are taken and left
-- around the count, and are not seen apart from it.
pub with_mutex : Mutex → Process → Process → Process
unfolding is_destroyed
with_mutex mutex p p' =
    if is_destroyed mutex p.destroyed then record p { is_defined = false } else p'

pub act : ℕ → Action → Process → Process
unfolding take_lock leave_lock print_held with_mutex
act i locks p = with_mutex log_file_mutex p (record p { holder = take_lock i p.holder })
act i unlocks p = with_mutex log_file_mutex p (record p { holder = leave_lock i p.holder })
act i (prints e) p = print_held i e p
act i counts_client p =
    with_mutex clients_count_mutex p
      (record p { shared = record (p.shared) { clients_count = (p.shared).clients_count + 1 } })
act i counts_win p = with_mutex clients_win_count_mutex p (record p {
  shared = record (p.shared) { clients_win_count = (p.shared).clients_win_count + 1 };
})

-- The thread `me`, on which the handler runs, goes on when that has returned; the other threads go on until
-- the process has ended.
pub goes_on_beside : ℕ → Handler → ℕ → Bool
goes_on_beside me returned i = true
goes_on_beside me (exited status) i = false
goes_on_beside me _ i = if i == me then false else true

pub data Event : Type 0 where
  handler_steps : Bool → Event
  acts : ℕ → Action → Event

module _ (usage : Usage) (me : ℕ) where
  pub act_beside : Handler → ℕ → Action → Process → Process
  unfolding act goes_on_beside
  act_beside handler i a p = if goes_on_beside me handler i then act i a p else p

  pub defined_step : Event → Process → Process
  unfolding handler_step act_beside
  defined_step (handler_steps succeeds) p = handler_step usage me succeeds p.handler p
  defined_step (acts i a) p = act_beside p.handler i a p

  pub step : Event → Process → Process
  unfolding defined_step
  step e p = if p.is_defined then defined_step e p else p

  pub run : List Event → Process → Process
  unfolding step
  run [] p = p
  run (e ∷ es) p = run es (step e p)
