-- ===== src/Examples/Servers.antt =====
-- Instances of the theorems about the start and the end of project2/server.c.
use comp.Base.{
  ℕ, ◌+◌, ◌-◌, ◌*◌, ◌≡◌, ◌⊎◌, refl, inr, List, [], ◌∷◌, some, true, false, arith, map, Bool, ok,
}
use comp.Server.{server_started, client_connected, Shared}
use comp.Server.Startup.{Call, Start, main}
use comp.Server.Startup.Setup.{terminated, wanted_code, setup_calls, Starts, main-Starts}
use comp.Server.Shutdown.{
  Usage, locking, returned, exited, Process, sigterm, sig_handler, acts, unlocks, prints,
  counts_client, handler_steps, Event, run,
}
use comp.Server.Shutdown.Waiting.{IsStuck, run-IsStuck}
use comp.Server.Shutdown.Steps.{Ends}
use comp.Server.Shutdown.Phases.{IsRunning}
use comp.Server.Shutdown.Ending.{sig_handler-Ends}

-- Every call succeeds.
abbrev system : Call → ℕ → Bool × ℕ
system c k = (true, k + 1)

-- atoi() of a text of digits.
abbrev value_from : ℕ → List ℕ → ℕ
value_from n [] = n
value_from n (c ∷ s) = value_from (n * 10 + (c - 48)) s

abbrev no_rand : ℕ → ℕ
no_rand k = k

-- `ABCD`.
abbrev arguments : List (List ℕ)
arguments = (65 ∷ 66 ∷ 67 ∷ 68 ∷ []) ∷ []

main-Starts_example :
    (r : Start ℕ) × (main system (value_from 0) ((56 ∷ 48 ∷ []) ∷ map terminated arguments) 0
      ≡ ok r)
    × Starts system (setup_calls 80) 0 no_rand (wanted_code no_rand arguments) r
main-Starts_example =
    main-Starts system (value_from 0) no_rand (56 ∷ 48 ∷ []) arguments 0
      ((omega arith, (omega arith, (omega arith, (omega arith, tt)))), tt)

abbrev usage : Usage
usage = record { user = 1; kernel = 2; peak = 3; current = 4 }

abbrev shared : Shared
shared = record {
  clients_now_increments = 2;
  clients_now_decrements = 1;
  clients_count = 2;
  clients_win_count = 1;
  log = server_started ∷ [];
}

-- Thread 3 has the mutex.
abbrev process : Process
process = record {
  shared = shared;
  holder = some 3;
  is_listening = true;
  is_log_open = true;
  destroyed = [];
  is_defined = true;
  handler = returned;
}

abbrev events : List Event
events =
    handler_steps true
    ∷ acts 3 (prints client_connected)
    ∷ acts 7 counts_client
    ∷ acts 3 unlocks
    ∷ handler_steps true
    ∷ handler_steps true
    ∷ acts 7 counts_client
    ∷ handler_steps true
    ∷ []

process-IsRunning : IsRunning process
process-IsRunning = record { log_open = refl; intact = refl; defined = refl }

sig_handler-Ends_example :
    Ends usage 5 shared
      (run usage 5 events (sig_handler sigterm process)).handler
      (run usage 5 events (sig_handler sigterm process))
    × (((run usage 5 events (sig_handler sigterm process)).is_defined ≡ false)
        ⊎ ((more : List Event) × ((run usage 5 more
                (run usage 5 events (sig_handler sigterm process))).handler
              ≡ exited 0)))
sig_handler-Ends_example =
    sig_handler-Ends usage 5 sigterm process events (inr refl) process-IsRunning
      (λ e. ground (arith, e))

run-IsStuck_example :
    IsStuck usage 3
      (run usage 3 events (record process { is_listening = false; handler = locking }))
run-IsStuck_example =
    run-IsStuck usage 3 events (record process { is_listening = false; handler = locking })
      (record { waits = refl; held = refl })
