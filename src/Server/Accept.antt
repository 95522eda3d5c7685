-- ===== src/Server/Accept.antt =====
-- The loop of main() in project2/server.c that accepts clients, among the threads that serve them. A run
-- is a sequence of rounds of the loop and of steps of the threads.
pub mod Counts
pub mod Limit
use comp.Base.{
  ℕ, zero, suc, ◌+◌, List, [], ◌∷◌, ◌++◌, Option, none, some, Bool, true, false, leb, if◌then◌else◌,
  get_elem?, set, Outcome, ok, ◌>>=◌,
}
use comp.Messages.{WriteResult}
use comp.Server.{
  gp_serv_full, server_started, server_full, failed_to_create_thread, Shared, World, Thread,
  goes_on, exits, print_log, close_socket, send_gp_message,
}

abbrev pub clients_now_max_count : ℕ
clients_now_max_count = 40

-- A thread of pthread_routine has not counted its client yet, has counted it, or has let it go. It counts
-- it once and lets it go once, as Server/Run shows.
pub data ClientThread : Type 0 where
  created : ClientThread
  serving : ClientThread
  ended : ClientThread

-- What malloc(), accept() and pthread_create() give in a round: a client comes with its socket, and a
-- thread for it can be created or not.
pub data Arrival (S : Type 0) : Type 0 where
  malloc_fails : Arrival S
  accept_fails : Arrival S
  client : S → Bool → Arrival S

-- `is_accepting` is false once pthread_exit() has ended the thread of main().
pub record Listener : Type 0 where
  pub shared : Shared
  pub threads : List ClientThread
  pub is_accepting : Bool

abbrev world : {S : Type 0} → S → Shared → World S
world socket shared = record { socket = socket; is_open = true; shared = shared }

-- clients_now_count >= CLIENTS_NOW_MAX_COUNT.
abbrev pub is_full : Shared → Bool
is_full shared =
    leb (shared.clients_now_decrements + clients_now_max_count) shared.clients_now_increments

module _ {S : Type 0} (read : S → ℕ → Option (List ℕ) × S)
    (write : S → List ℕ → WriteResult × S) where
  after_refusal : Listener → Outcome (Thread S (List ℕ)) → Outcome Listener
  unfolding close_socket
  after_refusal l (ok (goes_on buffer w)) = ok (record l { shared = (close_socket w).shared })
  after_refusal l (ok (exits w)) = ok (record l { shared = w.shared; is_accepting = false })
  after_refusal l Outcome.undefined = Outcome.undefined
  after_refusal l Outcome.no_fuel = Outcome.no_fuel

  -- The client is told that the server is full.
  refuse : S → Listener → Outcome Listener
  unfolding send_gp_message print_log after_refusal
  refuse socket l =
      after_refusal l (
        send_gp_message read write gp_serv_full none
          (print_log server_full (world socket l.shared)))

  create_thread : S → Bool → Listener → Listener
  unfolding print_log close_socket
  create_thread socket true l = record l { threads = l.threads ++ created ∷ [] }
  create_thread socket false l = record l {
    shared = (close_socket (print_log failed_to_create_thread (world socket l.shared))).shared;
  }

  -- A round of the loop.
  pub accept_client : Arrival S → Listener → Outcome Listener
  unfolding refuse create_thread
  accept_client malloc_fails l = ok l
  accept_client accept_fails l = ok l
  accept_client (client socket is_created) l =
      if is_full l.shared then refuse socket l else ok (create_thread socket is_created l)

-- increment_clients_now_count and increment_clients_count, and decrement_clients_now_count.
thread_step : ClientThread → Shared → ClientThread × Shared
thread_step created shared = (
  serving,
  record shared {
    clients_now_increments = shared.clients_now_increments + 1;
    clients_count = shared.clients_count + 1;
  },
)
thread_step serving shared =
    (ended, record shared { clients_now_decrements = shared.clients_now_decrements + 1 })
thread_step ended shared = (ended, shared)

move : ℕ → Option ClientThread → Listener → Listener
unfolding thread_step
move i none l = l
move i (some t) l =
    let (t', shared) = thread_step t l.shared in
    record l { threads = set l.threads i t'; shared = shared }

pub data Event (S : Type 0) : Type 0 where
  round : Arrival S → Event S
  steps : ℕ → Event S

module _ {S : Type 0} (read : S → ℕ → Option (List ℕ) × S)
    (write : S → List ℕ → WriteResult × S) where
  pub listener_step : Event S → Listener → Outcome Listener
  unfolding accept_client move
  listener_step (round a) l = if l.is_accepting then accept_client read write a l else ok l
  listener_step (steps i) l = ok (move i (get_elem? l.threads i) l)

  unfoldable pub listen : List (Event S) → Listener → Outcome Listener
  unfolding listener_step
  listen [] l = ok l
  listen (e ∷ es) l = do l' ← listener_step e l; listen es l'

-- Where main() enters the loop.
abbrev pub listener : Listener
listener = record {
  shared = record {
    clients_now_increments = 0;
    clients_now_decrements = 0;
    clients_count = 0;
    clients_win_count = 0;
    log = server_started ∷ [];
  };
  threads = [];
  is_accepting = true;
}
