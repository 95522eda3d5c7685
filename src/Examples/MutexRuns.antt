-- ===== src/Examples/MutexRuns.antt =====
-- A run of workshop/producer-consumer-problem.c, and an instance of the theorem about its runs.
use comp.Base.{ℕ, zero, suc, ◌≡◌, refl, List, [], ◌∷◌, ◌++◌, Outcome, ok}
use comp.Producers.Mutex.{
  Message, consumer_consumed, producer_produced, Event, steps, exits, Process, run, main,
}
use comp.Producers.Mutex.Safety.{Continues, run-IsGuarded}

-- A step of the producer with the item 7 and one of the consumer, `n` times.
abbrev in_turn : ℕ → List Event
in_turn zero = []
in_turn (suc n) = steps 0 7 ∷ steps 1 0 ∷ in_turn n

abbrev schedule : List Event
schedule = in_turn 24 ++ exits ∷ in_turn 12

abbrev printed : Outcome Process → List Message
printed (ok p) = (p.variables).output
printed Outcome.undefined = []
printed Outcome.no_fuel = []

both_turns :
    printed (run (in_turn 24) (main 1 1))
    ≡ producer_produced 7 ∷ consumer_consumed 7 ∷ producer_produced 7 ∷ consumer_consumed 7 ∷ []
unfolding run main
both_turns = refl

run-IsGuarded_example : Continues (run schedule (main 1 1))
run-IsGuarded_example = run-IsGuarded 1 1 schedule
