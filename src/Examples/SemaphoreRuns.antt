-- ===== src/Examples/SemaphoreRuns.antt =====
-- A run of workshop/producer-consumer-problem-semaphore.c, and instances of the theorems about its runs.
use comp.Base.{ℕ, zero, suc, ◌≡◌, refl, List, [], ◌∷◌, ◌++◌, true, ok}
use comp.Producers.{empty_buffer, buffer_size}
use comp.Producers.Mutex.{Event, steps, exits}
use comp.Producers.Semaphores.{remove_wait_items, Process, run, main}
use comp.Producers.Semaphores.Safety.{Continues, run-IsBalanced}
use comp.Producers.Semaphores.Blocked.{AtRest, Blocked, run-Blocked}

-- A step of the producer with the item 7 and one of the consumer, `n` times.
abbrev in_turn : ℕ → List Event
in_turn zero = []
in_turn (suc n) = steps 0 7 ∷ steps 1 0 ∷ in_turn n

abbrev schedule : List Event
schedule = in_turn 24 ++ exits ∷ in_turn 12

run-IsBalanced_example : Continues (run schedule (main 1 1))
run-IsBalanced_example = run-IsBalanced 1 1 schedule

-- A consumer alone that waits for an item when is_exiting is set.
abbrev waiting_consumer : Process
waiting_consumer = record {
  threads = remove_wait_items ∷ [];
  variables = record {
    shared = empty_buffer;
    buffer_sem = 1;
    space_sem = buffer_size;
    items_sem = 0;
    is_exiting = true;
    output = [];
  };
}

consumer_comes_to_wait : run (steps 0 0 ∷ steps 0 0 ∷ exits ∷ []) (main 0 1) ≡ ok waiting_consumer
unfolding run main
consumer_comes_to_wait = refl

waiting_consumer-Blocked : Blocked waiting_consumer
waiting_consumer-Blocked = record { threads = (AtRest.waiting, tt); empty = refl; exiting = refl }

run-Blocked_example :
    run (steps 0 0 ∷ exits ∷ steps 0 0 ∷ []) waiting_consumer ≡ ok waiting_consumer
run-Blocked_example =
    run-Blocked (steps 0 0 ∷ exits ∷ steps 0 0 ∷ []) waiting_consumer waiting_consumer-Blocked
