-- ===== src/Multi/Start.antt =====
-- The dispatch of the next process in `multi_scheduler_runner` of project1/process-scheduler.c.
use comp.Base.{
  ℕ, ◌+◌, ◌≤◌, ◌<◌, ◌≡◌, refl, sym, ap, subst, ◌∙◌, List, [], ◌∷◌, Option, none, some, All, arith,
}
use comp.Swap.{Memory, Outcome, ok, ◌>>=◌}
use comp.Parser.{ScheduledProcess}
use comp.Scheduler.{ProcessControlBlock, running, SimulationStatus, get_quantum_by_pcb}
use comp.Scheduler.Work.{work, times, pcb_keys, IsUnfinished}
use comp.Scheduler.Admitting.{IsAhead}
use comp.Scheduler.Loading.{Loads}
use comp.Simulation.{goes_on}
use comp.Simulation.Sound.{running_keys, IsPointed, start_running_lem, IsPointed-of_sizes}
use comp.Multi.{Multi, ReadyQs, dispatch, next_process, execute, after_dispatch, pop_from_ready_qs}
use comp.Multi.Queues.{by_priority, Pops, PopResult, pop_from_ready_qs_lem}
use comp.Multi.Execute.{execute_running}
use comp.Multi.Invariant.{jobs, IsOrderly, rounds_left, Advances, StepResult, RoundResult}

quantum-positive : (pcb : ProcessControlBlock) → 0 < get_quantum_by_pcb pcb
unfolding get_quantum_by_pcb
quantum-positive pcb = ground arith

module _ (memsize : ℕ) where
  stepped_on :
      (s : Multi) (x : Outcome Multi)
      → StepResult memsize s x
      → RoundResult memsize s (x >>= λ s'. ok (goes_on s'))
  stepped_on s (ok s') a = a
  stepped_on s Outcome.undefined a = a
  stepped_on s Outcome.no_fuel a = a

  module _ (s : Multi) (h : IsOrderly memsize s)
      (ahead : IsAhead s.time s.scheduled_processes) where
    -- Nothing runs or waits, and the next process is yet to come: the round only moves the time.
    goes_on_idle :
        (sp : ScheduledProcess) (sps : List ScheduledProcess)
        → s.running ≡ none
        → s.scheduled_processes ≡ sp ∷ sps
        → Advances memsize s (record s { time = s.time + 1 })
    goes_on_idle sp sps e f = record {
      orderly = record {
        sound = record {
          consistent = h.sound.consistent;
          all_fit = h.sound.all_fit;
          pointed = h.sound.pointed;
          unfinished = h.sound.unfinished;
          active = h.sound.active;
          ended = h.sound.ended;
          can_load = h.sound.can_load;
        };
        levelled = h.levelled;
        in_slice = h.in_slice;
      };
      nearer = ground (arith, subst (IsAhead s.time) f ahead);
      same_jobs = λ id job. refl;
      tick = omega arith;
    }

    module _ (pcb : ProcessControlBlock) (rest : ReadyQs) (e : s.running ≡ none)
        (q : Pops s.ready pcb rest) (m : Memory) (r : Loads memsize pcb.process_memory s.memory m)
        (out : List SimulationStatus) where
      abbrev loaded_pcb : ProcessControlBlock
      loaded_pcb = record pcb { process_state = running; burst_time = 0 }

      abbrev started : Multi
      started = record s { running = some loaded_pcb; ready = rest; memory = m; output = out }

      queue-IsPointed : All (IsPointed s.memory) (pcb ∷ by_priority rest)
      queue-IsPointed = subst (All (IsPointed s.memory)) q.split h.sound.pointed

      queue-IsUnfinished : All IsUnfinished (pcb ∷ by_priority rest)
      queue-IsUnfinished = subst (All IsUnfinished) q.split h.sound.unfinished

      started-IsOrderly : IsOrderly memsize started
      started-IsOrderly = record {
        sound = record {
          consistent = r.consistent;
          all_fit = subst (All (λ n. n ≤ memsize)) (sym r.same_sizes) h.sound.all_fit;
          pointed = IsPointed-of_sizes s.memory m (by_priority rest) r.same_sizes queue-IsPointed.1;
          unfinished = queue-IsUnfinished.1;
          active = record {
            in_memory = r.loaded;
            is_running = refl;
            unfinished = queue-IsUnfinished.0;
          };
          ended = h.sound.ended;
          can_load = h.sound.can_load;
        };
        levelled = q.levelled;
        in_slice = (q.some_level, q.in_range, quantum-positive loaded_pcb);
      }

      started-rounds_left : rounds_left memsize started ≡ rounds_left memsize s
      started-rounds_left = ground (arith, e, ap work q.split)

      started-jobs : (id job : ℕ) → jobs id job started ≡ jobs id job s
      started-jobs id job = omega (
        arith,
        ap (λ x. times id job (running_keys x)) e,
        ap (λ l. times id job (pcb_keys l)) q.split,
      )

      Advances-started : (s' : Multi) → Advances memsize started s' → Advances memsize s s'
      Advances-started s' a = record {
        orderly = a.orderly;
        nearer = omega (arith, a.nearer, started-rounds_left);
        same_jobs = λ id job. a.same_jobs id job ∙ started-jobs id job;
        tick = a.tick;
      }

      StepResult-started :
          (x : Outcome Multi) → StepResult memsize started x → StepResult memsize s x
      StepResult-started (ok s') a = Advances-started s' a
      StepResult-started Outcome.undefined a = a
      StepResult-started Outcome.no_fuel a = a

      started_round :
          RoundResult memsize s (execute started (some loaded_pcb) >>= λ s'. ok (goes_on s'))
      started_round = stepped_on s (execute started (some loaded_pcb)) (
          StepResult-started (execute started (some loaded_pcb))
            (execute_running memsize started loaded_pcb started-IsOrderly refl))

  next_process_lem :
      (s : Multi) (popped : Option (ProcessControlBlock × ReadyQs)) (sps : List ScheduledProcess)
      → 0 < memsize
      → IsOrderly memsize s
      → IsAhead s.time s.scheduled_processes
      → s.running ≡ none
      → PopResult s.ready popped
      → s.scheduled_processes ≡ sps
      → RoundResult memsize s (next_process memsize s popped sps >>= after_dispatch)
  unfolding next_process after_dispatch
  next_process_lem s none [] pos h ahead e q f = record {
    orderly = h;
    idle = e;
    drained = q;
    exhausted = f;
    same_jobs = λ id job. refl;
    same_time = refl;
  }
  next_process_lem s none (sp ∷ sps) pos h ahead e q f =
      rw (e, execute, RoundResult) (goes_on_idle s h ahead sp sps e f)
  next_process_lem s (some (pcb, rest)) sps pos h ahead e q f =
      let (m, eq, r) =
        start_running_lem memsize pcb (record s { ready = rest }) h.sound.consistent
          (subst (All (IsPointed s.memory)) q.split h.sound.pointed).0 pos h.sound.all_fit in
      subst (λ o. RoundResult memsize s ((o >>= (λ s'. ok (goes_on s'))) >>= after_dispatch))
        (sym eq) (started_round s h ahead pcb rest e q m r _)

  -- The rest of a round, once the processes whose time has come wait.
  pub dispatch_lem :
      (s : Multi) (r : Option ProcessControlBlock)
      → 0 < memsize
      → IsOrderly memsize s
      → IsAhead s.time s.scheduled_processes
      → s.running ≡ r
      → RoundResult memsize s (dispatch memsize s r >>= after_dispatch)
  unfolding dispatch after_dispatch
  dispatch_lem s (some pcb) pos h ahead e =
      subst (λ r. RoundResult memsize s (execute s r >>= λ s'. ok (goes_on s'))) (sym e)
        (stepped_on s (execute s (some pcb)) (execute_running memsize s pcb h e))
  dispatch_lem s none pos h ahead e =
      next_process_lem s (pop_from_ready_qs s.ready) s.scheduled_processes pos h ahead e
        (pop_from_ready_qs_lem s.ready h.levelled) refl
