-- ===== src/Fcfs/Runner.antt =====
-- `fcfs_scheduler_runner` of project1/process-scheduler.c, as a whole.
use mathlib.Core.List.{append-nil, tail-eq_of_cons-eq}
use comp.Base.{
  ℕ, suc, ◌+◌, ◌≤◌, ◌<◌, ◌≡◌, refl, sym, ap, ◌∙◌, List, [], ◌∷◌, ◌++◌, none, length, All, arith,
}
use comp.Processes.{new_process_memories_list, get_process_memories_list_not_in_disk_count}
use comp.Swap.{Outcome, ok}
use comp.Swap.Invariant.{IsConsistent, new_memory-IsConsistent}
use comp.Parser.{ScheduledProcess}
use comp.Scheduler.{PcbsQueue, new_pcbs_queue, new_pcbs_list}
use comp.Scheduler.Work.{future, last_start, pcb_keys, scheduled_keys}
use comp.Scheduler.Admitting.{CanLoad}
use comp.Simulation.{Round, goes_on, breaks, new_simulation}
use comp.Simulation.Loop.{Keeps, run_rounds_lem}
use comp.Simulation.Sound.{running_keys, IsEnded}
use comp.Fcfs.{Fcfs, admit, fcfs_round, fcfs_scheduler_runner}
use comp.Fcfs.Invariant.{
  jobs, IsSteady, rounds_left, Admitted, admit-Admitted, Advances, Ends, RoundResult,
}
use comp.Fcfs.Start.{dispatch_lem}

same_length :
    (pcbs : PcbsQueue) (sps : List ScheduledProcess)
    → pcb_keys pcbs ≡ scheduled_keys sps
    → length pcbs ≡ length sps
same_length [] [] e = refl
same_length [] (sp ∷ sps) e = cc
same_length (pcb ∷ pcbs) [] e = cc
same_length (pcb ∷ pcbs) (sp ∷ sps) e = ap suc (same_length pcbs sps (tail-eq_of_cons-eq e))

module _ (memsize : ℕ) (pos : 0 < memsize) where
  from_Admitted :
      (s s' : Fcfs)
      → s'.time ≡ s.time
      → Admitted memsize s s'
      → (o : Outcome (Round PcbsQueue)) → RoundResult memsize s' o
      → RoundResult memsize s o
  from_Admitted s s' t a (ok (goes_on s'')) r = record {
    steady = r.steady;
    nearer = omega (arith, r.nearer, a.no_more);
    same_jobs = r.same_jobs ∙ a.same_jobs;
    tick = omega (arith, r.tick, t);
  }
  from_Admitted s s' t a (ok (breaks s'')) r = record {
    steady = r.steady;
    idle = r.idle;
    drained = r.drained;
    exhausted = r.exhausted;
    same_jobs = r.same_jobs ∙ a.same_jobs;
    same_time = r.same_time ∙ t;
  }
  from_Admitted s s' t a Outcome.undefined r = r
  from_Admitted s s' t a Outcome.no_fuel r = r

  -- No round fails, and each goes on or ends the loop as it should.
  fcfs_round_lem : (s : Fcfs) → IsSteady memsize s → RoundResult memsize s (fcfs_round memsize s)
  unfolding fcfs_round admit
  fcfs_round_lem s h =
      let a = admit-Admitted memsize s h in
      from_Admitted s (admit s) refl a (fcfs_round memsize s)
        (dispatch_lem memsize (admit s) (admit s).running pos a.steady a.ahead refl)

  -- What the loop leaves behind.
  pub record Finishes (s s' : Fcfs) : Type 0 where
    pub steady : IsSteady memsize s'
    pub ended : All IsEnded s'.terminated_list
    pub all_jobs : pcb_keys s'.terminated_list ≡ jobs s
    pub in_time : s'.time ≤ s.time + rounds_left memsize s
    pub idle : s'.running ≡ none
    pub lines : length s'.output ≡ length s'.terminated_list

  nothing_left :
      (s s' : Fcfs)
      → Ends memsize s s'
      → running_keys s'.running ++ (pcb_keys s'.ready ++ scheduled_keys s'.scheduled_processes) ≡ []
  nothing_left s s' e = simp (e.idle, e.drained, e.exhausted)

  Ends-Finishes : (s s' : Fcfs) → Ends memsize s s' → Finishes s s'
  Ends-Finishes s s' e = record {
    steady = e.steady;
    ended = e.steady.sound.ended;
    idle = e.idle;
    all_jobs =
        sym (append-nil (pcb_keys s'.terminated_list))
        ∙ ap (λ l. pcb_keys s'.terminated_list ++ l) (sym (nothing_left s s' e))
        ∙ e.same_jobs;
    in_time = omega (arith, e.same_time);
    lines = ground (arith, e.steady.lines, e.idle);
  }

  Finishes-Advances :
      (s s' : Fcfs) → Advances memsize s s' → (t : Fcfs) → Finishes s' t → Finishes s t
  Finishes-Advances s s' a t f = record {
    steady = f.steady;
    ended = f.ended;
    idle = f.idle;
    all_jobs = f.all_jobs ∙ a.same_jobs;
    in_time = omega (arith, f.in_time, a.nearer, a.tick);
    lines = f.lines;
  }

  round-Keeps :
      (s : Fcfs) (o : Outcome (Round PcbsQueue))
      → RoundResult memsize s o
      → Keeps (IsSteady memsize) (rounds_left memsize) Finishes s o
  round-Keeps s (ok (goes_on s')) r = (r.steady, r.nearer, Finishes-Advances s s' r)
  round-Keeps s (ok (breaks s')) r = Ends-Finishes s s' r
  round-Keeps s Outcome.undefined r = r
  round-Keeps s Outcome.no_fuel r = r

  new_simulation-IsSteady :
      (sps : List ScheduledProcess)
      → All (CanLoad memsize) sps
      → IsSteady memsize (new_simulation new_pcbs_queue memsize sps)
  unfolding new_simulation new_pcbs_list new_pcbs_queue new_process_memories_list
      get_process_memories_list_not_in_disk_count
  new_simulation-IsSteady sps h = record {
    sound = record {
      consistent = new_memory-IsConsistent memsize pos;
      all_fit = tt;
      pointed = tt;
      unfinished = tt;
      active = tt;
      ended = tt;
      can_load = h;
    };
    alone = omega arith;
    lines = refl;
  }

-- First come, first served: when every process has a size and fits in memory, the runner ends. All
-- jobs have ended then, in the order of the file, each with its job time (at least 1) of CPU time,
-- one line was printed for each, and the clock shows at most the last start time plus the total
-- job time plus 1. The memory is consistent, and no process memory is left in main memory.
pub fcfs_scheduler_runner_lem :
    (memsize fuel : ℕ) (sps : List ScheduledProcess)
    → 0 < memsize
    → All (CanLoad memsize) sps
    → future sps + suc (last_start sps) < fuel
    → (s : Fcfs) × (fcfs_scheduler_runner fuel memsize sps ≡ ok s)
      × (pcb_keys s.terminated_list ≡ scheduled_keys sps)
      × All IsEnded s.terminated_list
      × (length s.output ≡ length sps)
      × (s.time ≤ future sps + suc (last_start sps))
      × IsConsistent memsize s.memory
      × (get_process_memories_list_not_in_disk_count s.memory.processes ≡ 0)
unfolding fcfs_scheduler_runner new_simulation new_pcbs_list new_pcbs_queue
fcfs_scheduler_runner_lem memsize fuel sps pos h f =
    let (s, e, d) =
      run_rounds_lem (IsSteady memsize) (rounds_left memsize) (Finishes memsize pos)
        (fcfs_round memsize) (λ s v. round-Keeps memsize pos s _ (fcfs_round_lem memsize pos s v))
        fuel (new_simulation new_pcbs_queue memsize sps) (new_simulation-IsSteady memsize pos sps h)
        (omega arith) in
    (
      s,
      e,
      d.all_jobs,
      d.ended,
      d.lines ∙ same_length s.terminated_list sps d.all_jobs,
      omega (arith, d.in_time),
      d.steady.sound.consistent,
      ground (arith, d.steady.alone, d.idle),
    )
