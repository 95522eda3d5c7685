-- ===== src/Multi/Runner.antt =====
-- `multi_scheduler_runner` of project1/process-scheduler.c, as a whole.
use comp.Base.{ℕ, suc, ◌+◌, ◌≤◌, ◌<◌, ◌≡◌, refl, ap, ◌∙◌, List, All, arith}
use comp.Processes.{new_process_memories_list}
use comp.Swap.{Outcome, ok}
use comp.Swap.Invariant.{IsConsistent, new_memory-IsConsistent}
use comp.Parser.{ScheduledProcess}
use comp.Scheduler.{new_pcbs_queue, new_pcbs_list}
use comp.Scheduler.Work.{future, last_start, times, pcb_keys, scheduled_keys}
use comp.Scheduler.Admitting.{CanLoad}
use comp.Simulation.{Round, goes_on, breaks, new_simulation}
use comp.Simulation.Loop.{Keeps, run_rounds_lem}
use comp.Simulation.Sound.{running_keys, IsEnded}
use comp.Multi.{Multi, ReadyQs, new_ready_qs, admit, multi_round, multi_scheduler_runner}
use comp.Multi.Invariant.{
  jobs, IsOrderly, rounds_left, Admitted, admit-Admitted, Advances, Ends, RoundResult,
}
use comp.Multi.Start.{dispatch_lem}

module _ (memsize : ℕ) (pos : 0 < memsize) where
  from_Admitted :
      (s s' : Multi)
      → s'.time ≡ s.time
      → Admitted memsize s s'
      → (o : Outcome (Round ReadyQs)) → RoundResult memsize s' o
      → RoundResult memsize s o
  from_Admitted s s' t a (ok (goes_on s'')) r = record {
    orderly = r.orderly;
    nearer = omega (arith, r.nearer, a.no_more);
    same_jobs = λ id job. r.same_jobs id job ∙ a.same_jobs id job;
    tick = omega (arith, r.tick, t);
  }
  from_Admitted s s' t a (ok (breaks s'')) r = record {
    orderly = r.orderly;
    idle = r.idle;
    drained = r.drained;
    exhausted = r.exhausted;
    same_jobs = λ id job. r.same_jobs id job ∙ a.same_jobs id job;
    same_time = r.same_time ∙ t;
  }
  from_Admitted s s' t a Outcome.undefined r = r
  from_Admitted s s' t a Outcome.no_fuel r = r

  -- No round fails, and each goes on or ends the loop as it should.
  multi_round_lem :
      (s : Multi) → IsOrderly memsize s → RoundResult memsize s (multi_round memsize s)
  unfolding multi_round admit
  multi_round_lem s h =
      let a = admit-Admitted memsize s h in
      from_Admitted s (admit s) refl a (multi_round memsize s)
        (dispatch_lem memsize (admit s) (admit s).running pos a.orderly a.ahead refl)

  -- What the loop leaves behind.
  pub record Finishes (s s' : Multi) : Type 0 where
    pub orderly : IsOrderly memsize s'
    pub all_jobs : (id job : ℕ) → times id job (pcb_keys s'.terminated_list) ≡ jobs id job s
    pub in_time : s'.time ≤ s.time + rounds_left memsize s

  Ends-Finishes : (s s' : Multi) → Ends memsize s s' → Finishes s s'
  Ends-Finishes s s' e = record {
    orderly = e.orderly;
    all_jobs = λ id job. omega (
      arith,
      e.same_jobs id job,
      ap (λ r. times id job (running_keys r)) e.idle,
      ap (λ l. times id job (pcb_keys l)) e.drained,
      ap (λ l. times id job (scheduled_keys l)) e.exhausted,
    );
    in_time = omega (arith, e.same_time);
  }

  Finishes-Advances :
      (s s' : Multi) → Advances memsize s s' → (t : Multi) → Finishes s' t → Finishes s t
  Finishes-Advances s s' a t f = record {
    orderly = f.orderly;
    all_jobs = λ id job. f.all_jobs id job ∙ a.same_jobs id job;
    in_time = omega (arith, f.in_time, a.nearer, a.tick);
  }

  round-Keeps :
      (s : Multi) (o : Outcome (Round ReadyQs))
      → RoundResult memsize s o
      → Keeps (IsOrderly memsize) (rounds_left memsize) Finishes s o
  round-Keeps s (ok (goes_on s')) r = (r.orderly, r.nearer, Finishes-Advances s s' r)
  round-Keeps s (ok (breaks s')) r = Ends-Finishes s s' r
  round-Keeps s Outcome.undefined r = r
  round-Keeps s Outcome.no_fuel r = r

  new_simulation-IsOrderly :
      (sps : List ScheduledProcess)
      → All (CanLoad memsize) sps
      → IsOrderly memsize (new_simulation new_ready_qs memsize sps)
  unfolding new_simulation new_pcbs_list new_pcbs_queue new_process_memories_list new_ready_qs
  new_simulation-IsOrderly sps h = record {
    sound = record {
      consistent = new_memory-IsConsistent memsize pos;
      all_fit = tt;
      pointed = tt;
      unfinished = tt;
      active = tt;
      ended = tt;
      can_load = h;
    };
    levelled = record { at_first = tt; at_second = tt; at_third = tt };
    in_slice = tt;
  }

-- Multi-level feedback queue: when every process has a size and fits in memory, the runner ends.
-- Each job, an id and a job time, has ended then as often as it is in the file, and got its job
-- time (at least 1) of CPU time; the clock shows at most the last start time plus the total job
-- time plus 1, and the memory is consistent.
pub multi_scheduler_runner_lem :
    (memsize fuel : ℕ) (sps : List ScheduledProcess)
    → 0 < memsize
    → All (CanLoad memsize) sps
    → future sps + suc (last_start sps) < fuel
    → (s : Multi) × (multi_scheduler_runner fuel memsize sps ≡ ok s)
      × ((id job : ℕ)
          → times id job (pcb_keys s.terminated_list) ≡ times id job (scheduled_keys sps))
      × All IsEnded s.terminated_list
      × (s.time ≤ future sps + suc (last_start sps))
      × IsConsistent memsize s.memory
unfolding multi_scheduler_runner new_simulation new_pcbs_list new_pcbs_queue new_ready_qs
multi_scheduler_runner_lem memsize fuel sps pos h f =
    let (s, e, d) =
      run_rounds_lem (IsOrderly memsize) (rounds_left memsize) (Finishes memsize pos)
        (multi_round memsize) (λ s v. round-Keeps memsize pos s _ (multi_round_lem memsize pos s v))
        fuel (new_simulation new_ready_qs memsize sps) (new_simulation-IsOrderly memsize pos sps h)
        (omega arith) in
    (
      s,
      e,
      λ id job. omega (arith, d.all_jobs id job),
      d.orderly.sound.ended,
      omega (arith, d.in_time),
      d.orderly.sound.consistent,
    )
