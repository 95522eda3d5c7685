-- ===== src/Multi/Execute.antt =====
-- One time step of the running process in `multi_scheduler_runner` of
-- project1/process-scheduler.c.
use mathlib.Core.List.{map-append}
use comp.Base.{
  ℕ, ◌+◌, ◌≤◌, ◌<◌, ◌≡◌, refl, sym, ap, subst, [], ◌∷◌, none, some, Bool, true, false, All,
  All-append, arith, Bool-cases, inl, inr,
}
use comp.Swap.{Memory, ok, ◌>>=◌}
use comp.Scheduler.{
  ProcessControlBlock, terminated, min_priority, run_pcb, is_pcb_finished, append_pcb_to_pcbs_list,
  get_quantum_by_pcb, is_quantum_exhausted_by_pcb, ready_and_decrease_priority_pcb,
}
use comp.Scheduler.Queue.{Joins}
use comp.Scheduler.Work.{total, times, times-append, pcb_keys, pcb_key}
use comp.Scheduler.Arrivals.{append_pcb-append}
use comp.Swap.Release.{Releases}
use comp.Simulation.Sound.{
  running_keys, IsActive, IsActive?, IsEnded, stop_running_lem, IsPointed, IsPointed-of_sizes,
  InMemory-IsPointed,
}
use comp.Multi.{Multi, ReadyQs, requeue, execute}
use comp.Multi.Queues.{
  by_priority, IsLevelled, append_to_ready_qs_lem, All-Joins, work-Joins, times-Joins,
}
use comp.Multi.Invariant.{IsInSlice, IsOrderly, Advances, StepResult}

-- A process that gives up the processor gets the next priority, 3 at most.
lowered-in_range :
    (pcb : ProcessControlBlock)
    → (0 < (ready_and_decrease_priority_pcb pcb).priority)
      × ((ready_and_decrease_priority_pcb pcb).priority ≤ min_priority)
unfolding ready_and_decrease_priority_pcb
lowered-in_range pcb = (ground arith, ground arith)

module _ (memsize : ℕ) where
  module _ (s : Multi) (pcb : ProcessControlBlock) (h : IsOrderly memsize s)
      (e : s.running ≡ some pcb) where
    active : IsActive s.memory pcb
    active = subst (IsActive? s.memory) e h.sound.active

    in_slice : IsInSlice (some pcb)
    in_slice = subst IsInSlice e h.in_slice

    abbrev stepped : Multi
    stepped = record s { running = some (run_pcb pcb); time = s.time + 1 }

    finished : is_pcb_finished (run_pcb pcb) ≡ true → total pcb.job_time ≡ pcb.cpu_time + 1
    unfolding is_pcb_finished run_pcb
    finished f = ground (arith, active.unfinished)

    unfinished : is_pcb_finished (run_pcb pcb) ≡ false → pcb.cpu_time + 1 < total pcb.job_time
    unfolding is_pcb_finished run_pcb
    unfinished f = ground (arith, active.unfinished)

    running_jobs :
        (id job : ℕ) → times id job (running_keys s.running) ≡ times id job (pcb_key pcb ∷ [])
    running_jobs id job = ap (λ r. times id job (running_keys r)) e

    goes_on_running :
        is_pcb_finished (run_pcb pcb) ≡ false
        → is_quantum_exhausted_by_pcb (run_pcb pcb) ≡ false
        → Advances memsize s stepped
    unfolding run_pcb is_quantum_exhausted_by_pcb get_quantum_by_pcb
    goes_on_running f g = record {
      orderly = record {
        sound = record {
          consistent = h.sound.consistent;
          all_fit = h.sound.all_fit;
          pointed = h.sound.pointed;
          unfinished = h.sound.unfinished;
          active = record {
            in_memory = active.in_memory;
            is_running = active.is_running;
            unfinished = unfinished f;
          };
          ended = h.sound.ended;
          can_load = h.sound.can_load;
        };
        levelled = h.levelled;
        in_slice = (in_slice.0, in_slice.1, ground (arith, g));
      };
      nearer = ground (arith, unfinished f);
      same_jobs = λ id job. omega (arith, running_jobs id job);
      tick = omega arith;
    }

    abbrev lowered_pcb : ProcessControlBlock
    lowered_pcb = ready_and_decrease_priority_pcb (run_pcb pcb)

    abbrev requeued : ReadyQs → Multi
    requeued qs = record stepped { running = none; ready = qs }

    goes_on_requeued :
        (qs : ReadyQs)
        → is_pcb_finished (run_pcb pcb) ≡ false
        → IsLevelled qs
        → Joins lowered_pcb (by_priority s.ready) (by_priority qs)
        → Advances memsize s (requeued qs)
    unfolding run_pcb ready_and_decrease_priority_pcb
    goes_on_requeued qs f l j = record {
      orderly = record {
        sound = record {
          consistent = h.sound.consistent;
          all_fit = h.sound.all_fit;
          pointed =
              All-Joins lowered_pcb (by_priority s.ready) (by_priority qs) j (IsPointed s.memory)
                (InMemory-IsPointed s.memory pcb active.in_memory) h.sound.pointed;
          unfinished =
              All-Joins lowered_pcb (by_priority s.ready) (by_priority qs) j _ (unfinished f)
                h.sound.unfinished;
          active = tt;
          ended = h.sound.ended;
          can_load = h.sound.can_load;
        };
        levelled = l;
        in_slice = tt;
      };
      nearer =
          ground (
            arith,
            e,
            unfinished f,
            work-Joins lowered_pcb (by_priority s.ready) (by_priority qs) j,
          );
      same_jobs = λ id job. omega (
        arith,
        running_jobs id job,
        times-Joins lowered_pcb (by_priority s.ready) (by_priority qs) j id job,
      );
      tick = omega arith;
    }

    abbrev ended_pcb : ProcessControlBlock
    ended_pcb = record (run_pcb pcb) { process_state = terminated }

    abbrev stopped : Memory → Multi
    stopped m = record stepped {
      running = none;
      memory = m;
      terminated_list = append_pcb_to_pcbs_list ended_pcb s.terminated_list;
    }

    goes_on_stopped :
        (m : Memory)
        → is_pcb_finished (run_pcb pcb) ≡ true
        → Releases memsize pcb.process_memory s.memory m
        → Advances memsize s (stopped m)
    unfolding run_pcb
    goes_on_stopped m f r = record {
      orderly = record {
        sound = record {
          consistent = r.consistent;
          all_fit = subst (All (λ n. n ≤ memsize)) (sym r.same_sizes) h.sound.all_fit;
          pointed =
              IsPointed-of_sizes s.memory m (by_priority s.ready) r.same_sizes h.sound.pointed;
          unfinished = h.sound.unfinished;
          active = tt;
          ended =
              subst (All IsEnded) (sym (append_pcb-append ended_pcb s.terminated_list)) (
                All-append IsEnded s.terminated_list _ h.sound.ended
                  ((sym (finished f), refl), tt));
          can_load = h.sound.can_load;
        };
        levelled = h.levelled;
        in_slice = tt;
      };
      nearer = ground (arith, finished f, e);
      same_jobs = λ id job. omega (
        arith,
        running_jobs id job,
        ap (λ l. times id job (pcb_keys l)) (append_pcb-append ended_pcb s.terminated_list),
        ap (times id job) (map-append pcb_key s.terminated_list (ended_pcb ∷ [])),
        times-append id job (pcb_keys s.terminated_list) (pcb_key ended_pcb ∷ []),
      );
      tick = omega arith;
    }

    slice_over :
        is_pcb_finished (run_pcb pcb) ≡ false → StepResult memsize s (requeue (run_pcb pcb) stepped)
    unfolding requeue ready_and_decrease_priority_pcb
    slice_over f =
        let (lo, hi) = lowered-in_range (run_pcb pcb) in
        let (qs, q, l, j) = append_to_ready_qs_lem lowered_pcb s.ready h.levelled refl lo hi in
        subst
          (λ o.
            StepResult memsize s
              (o >>= (λ qs'. ok (record stepped { running = none; ready = qs' }))))
          (sym q) (goes_on_requeued qs f l j)

    slice_goes_on :
        is_pcb_finished (run_pcb pcb) ≡ false
        → (b : Bool) → is_quantum_exhausted_by_pcb (run_pcb pcb) ≡ b
        → StepResult memsize s
            (elim b [ true ↦ requeue (run_pcb pcb) stepped | false ↦ ok stepped ])
    slice_goes_on f true g = slice_over f
    slice_goes_on f false g = goes_on_running f g

    pub execute_running : StepResult memsize s (execute s (some pcb))
    unfolding execute run_pcb
    execute_running = elim (Bool-cases (is_pcb_finished (run_pcb pcb))) [
      | inl f ↦
          let (m, q, r) =
            stop_running_lem memsize (run_pcb pcb) stepped h.sound.consistent
              (InMemory-IsPointed s.memory pcb active.in_memory) in
          rw (f, q, StepResult) (goes_on_stopped m f r)
      | inr f ↦
          rw (f, StepResult) (slice_goes_on f (is_quantum_exhausted_by_pcb (run_pcb pcb)) refl)
    ]
