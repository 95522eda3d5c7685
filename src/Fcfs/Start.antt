-- ===== src/Fcfs/Start.antt =====
-- The dispatch of the next process in `fcfs_scheduler_runner` of project1/process-scheduler.c.
use comp.Base.{
  ℕ, suc, ◌+◌, ◌≤◌, ◌<◌, ◌≡◌, refl, sym, ap, subst, ◌∙◌, List, [], ◌∷◌, ◌++◌, Option, none, some,
  length, All, arith, length-append,
}
use comp.Swap.{Memory, Outcome, ok, ◌>>=◌}
use comp.Parser.{ScheduledProcess}
use comp.Scheduler.{
  ProcessControlBlock, PcbsQueue, running, SimulationStatus, simulation_status,
  pop_front_pcb_from_pcbs_queue,
}
use comp.Scheduler.Work.{work, pcb_keys, scheduled_keys, IsUnfinished}
use comp.Scheduler.Admitting.{IsAhead}
use comp.Scheduler.Loading.{Loads}
use comp.Simulation.{goes_on}
use comp.Simulation.Sound.{
  running_keys, IsActive, IsActive?, IsPointed, start_running_lem, IsPointed-of_sizes,
}
use comp.Fcfs.{Fcfs, dispatch, next_process, execute, after_dispatch}
use comp.Fcfs.Execute.{execute_running}
use comp.Fcfs.Invariant.{jobs, IsSteady, rounds_left, Advances, StepResult, RoundResult}

module _ (memsize : ℕ) where
  stepped_on :
      (s : Fcfs) (x : Outcome Fcfs)
      → StepResult memsize s x
      → RoundResult memsize s (x >>= λ s'. ok (goes_on s'))
  stepped_on s (ok s') a = a
  stepped_on s Outcome.undefined a = a
  stepped_on s Outcome.no_fuel a = a

  module _ (s : Fcfs) (h : IsSteady memsize s) (ahead : IsAhead s.time s.scheduled_processes) where
    -- Nothing runs or waits, and the next process is yet to come: the round only moves the time.
    goes_on_idle :
        (sp : ScheduledProcess) (sps : List ScheduledProcess)
        → s.running ≡ none
        → s.scheduled_processes ≡ sp ∷ sps
        → Advances memsize s (record s { time = s.time + 1 })
    goes_on_idle sp sps e f = record {
      steady = record {
        sound = record {
          consistent = h.sound.consistent;
          all_fit = h.sound.all_fit;
          pointed = h.sound.pointed;
          unfinished = h.sound.unfinished;
          active = h.sound.active;
          ended = h.sound.ended;
          can_load = h.sound.can_load;
        };
        alone = h.alone;
        lines = h.lines;
      };
      nearer = ground (arith, subst (IsAhead s.time) f ahead);
      same_jobs = refl;
      tick = omega arith;
    }

    module _ (pcb : ProcessControlBlock) (rest : PcbsQueue) (e : s.running ≡ none)
        (q : s.ready ≡ pcb ∷ rest) (m : Memory) (r : Loads memsize pcb.process_memory s.memory m)
        (out : List SimulationStatus) (o : length out ≡ suc (length s.output)) where
      abbrev loaded_pcb : ProcessControlBlock
      loaded_pcb = record pcb { process_state = running; burst_time = 0 }

      abbrev started : Fcfs
      started = record s { running = some loaded_pcb; ready = rest; memory = m; output = out }

      queue-IsPointed : All (IsPointed s.memory) (pcb ∷ rest)
      queue-IsPointed = subst (All (IsPointed s.memory)) q h.sound.pointed

      queue-IsUnfinished : All IsUnfinished (pcb ∷ rest)
      queue-IsUnfinished = subst (All IsUnfinished) q h.sound.unfinished

      started-IsActive : IsActive m loaded_pcb
      started-IsActive = record {
        in_memory = r.loaded;
        is_running = refl;
        unfinished = queue-IsUnfinished.0;
      }

      started-IsSteady : IsSteady memsize started
      started-IsSteady = record {
        sound = record {
          consistent = r.consistent;
          all_fit = subst (All (λ n. n ≤ memsize)) (sym r.same_sizes) h.sound.all_fit;
          pointed = IsPointed-of_sizes s.memory m rest r.same_sizes queue-IsPointed.1;
          unfinished = queue-IsUnfinished.1;
          active = started-IsActive;
          ended = h.sound.ended;
          can_load = h.sound.can_load;
        };
        alone = ground (arith, h.alone, r.grows, e);
        lines = ground (arith, h.lines, o, e);
      }

      started-rounds_left : rounds_left memsize started ≡ rounds_left memsize s
      started-rounds_left = ground (arith, e, ap work q)

      started-jobs : jobs started ≡ jobs s
      started-jobs =
          ap
            (λ l.
              pcb_keys s.terminated_list ++ (pcb_keys l ++ scheduled_keys s.scheduled_processes))
            (sym q)
          ∙ ap
              (λ x.
                pcb_keys s.terminated_list
                ++ (running_keys x ++ (pcb_keys s.ready ++ scheduled_keys s.scheduled_processes)))
              (sym e)

      Advances-started : (s' : Fcfs) → Advances memsize started s' → Advances memsize s s'
      Advances-started s' a = record {
        steady = a.steady;
        nearer = omega (arith, a.nearer, started-rounds_left);
        same_jobs = a.same_jobs ∙ started-jobs;
        tick = a.tick;
      }

      StepResult-started :
          (x : Outcome Fcfs) → StepResult memsize started x → StepResult memsize s x
      StepResult-started (ok s') a = Advances-started s' a
      StepResult-started Outcome.undefined a = a
      StepResult-started Outcome.no_fuel a = a

      started_round :
          RoundResult memsize s (execute started (some loaded_pcb) >>= λ s'. ok (goes_on s'))
      started_round = stepped_on s (execute started (some loaded_pcb)) (
          StepResult-started (execute started (some loaded_pcb))
            (execute_running memsize started loaded_pcb started-IsSteady started-IsActive refl))

  next_process_lem :
      (s : Fcfs) (queue : PcbsQueue) (sps : List ScheduledProcess)
      → 0 < memsize
      → IsSteady memsize s
      → IsAhead s.time s.scheduled_processes
      → s.running ≡ none
      → s.ready ≡ queue
      → s.scheduled_processes ≡ sps
      → RoundResult memsize s
          (next_process memsize s (pop_front_pcb_from_pcbs_queue queue) sps >>= after_dispatch)
  unfolding next_process after_dispatch pop_front_pcb_from_pcbs_queue
  next_process_lem s [] [] pos h ahead e q f = record {
    steady = h;
    idle = e;
    drained = q;
    exhausted = f;
    same_jobs = refl;
    same_time = refl;
  }
  next_process_lem s [] (sp ∷ sps) pos h ahead e q f =
      rw (e, execute, RoundResult) (goes_on_idle s h ahead sp sps e f)
  next_process_lem s (pcb ∷ rest) sps pos h ahead e q f =
      let (m, eq, r) =
        start_running_lem memsize pcb (record s { ready = rest }) h.sound.consistent
          (subst (All (IsPointed s.memory)) q h.sound.pointed).0 pos h.sound.all_fit in
      subst (λ o. RoundResult memsize s ((o >>= (λ s'. ok (goes_on s'))) >>= after_dispatch))
        (sym eq)
        (started_round s h ahead pcb rest e q m r _ (
          omega (
            arith,
            length-append s.output (
                simulation_status s.time (record pcb { process_state = running; burst_time = 0 }) m
                  memsize
                ∷ []),
          )))

  -- The rest of a round, once the processes whose time has come wait.
  pub dispatch_lem :
      (s : Fcfs) (r : Option ProcessControlBlock)
      → 0 < memsize
      → IsSteady memsize s
      → IsAhead s.time s.scheduled_processes
      → s.running ≡ r
      → RoundResult memsize s (dispatch memsize s r >>= after_dispatch)
  unfolding dispatch after_dispatch
  dispatch_lem s (some pcb) pos h ahead e =
      subst (λ r. RoundResult memsize s (execute s r >>= λ s'. ok (goes_on s'))) (sym e)
        (stepped_on s (execute s (some pcb))
          (execute_running memsize s pcb h (subst (IsActive? s.memory) e h.sound.active) e))
  dispatch_lem s none pos h ahead e =
      next_process_lem s s.ready s.scheduled_processes pos h ahead e refl refl
