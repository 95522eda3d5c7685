-- ===== src/Simulation/Loop.antt =====
-- The loop of a runner of project1/process-scheduler.c: it ends, by a measure that every round lowers.
use comp.Base.{ℕ, zero, suc, ◌<◌, ◌≡◌, refl, arith}
use comp.Swap.{Outcome, ok}
use comp.Simulation.{Simulation, Round, goes_on, breaks, run_rounds}

module _ {Q : Type 0} (Inv : Simulation Q → Type 0) (left : Simulation Q → ℕ)
    (Done : Simulation Q → Simulation Q → Type 0) where
  -- A round that goes on keeps the invariant and lowers the measure, and what the loop achieves
  -- from there it achieves from here. A round that breaks has achieved it.
  abbrev pub Keeps : Simulation Q → Outcome (Round Q) → Type 0
  Keeps s (ok (goes_on s')) =
      Inv s' × (left s' < left s) × ((t : Simulation Q) → Done s' t → Done s t)
  Keeps s (ok (breaks s')) = Done s s'
  Keeps s Outcome.undefined = ⊥
  Keeps s Outcome.no_fuel = ⊥

  module _ (round : Simulation Q → Outcome (Round Q))
      (keeps : (s : Simulation Q) → Inv s → Keeps s (round s)) where
    abbrev EndsWell : ℕ → Simulation Q → Type 0
    EndsWell fuel s = (t : Simulation Q) × (run_rounds round fuel s ≡ ok t) × Done s t

    after_round :
        (fuel : ℕ) (s : Simulation Q) (o : Outcome (Round Q))
        → round s ≡ o
        → Keeps s o
        → left s < suc fuel
        → ((s' : Simulation Q) → Inv s' → left s' < fuel → EndsWell fuel s')
        → EndsWell (suc fuel) s
    unfolding run_rounds
    after_round fuel s (ok (goes_on s')) e k f ih =
        let (t, q, d) = ih s' k.0 (omega (arith, k.1)) in (t, rw (e, run_rounds) q, k.2 t d)
    after_round fuel s (ok (breaks s')) e k f ih = (s', rw (e, run_rounds) refl, k)
    after_round fuel s Outcome.undefined e k f ih = absurd k
    after_round fuel s Outcome.no_fuel e k f ih = absurd k

    pub run_rounds_lem :
        (fuel : ℕ) (s : Simulation Q)
        → Inv s
        → left s < fuel
        → (t : Simulation Q) × (run_rounds round fuel s ≡ ok t) × Done s t
    run_rounds_lem zero s h f = elim f [ ]
    run_rounds_lem (suc fuel) s h f =
        after_round fuel s (round s) refl (keeps s h) f (run_rounds_lem fuel)
