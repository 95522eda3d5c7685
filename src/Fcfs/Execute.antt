-- ===== src/Fcfs/Execute.antt =====
-- One time step of the running process in `fcfs_scheduler_runner` of
-- project1/process-scheduler.c.
use mathlib.Core.List.{append_assoc, map-append}
use comp.Base.{
  ℕ, ◌+◌, ◌≤◌, ◌<◌, ◌≡◌, refl, sym, ap, subst, ◌∙◌, [], ◌∷◌, ◌++◌, none, some, true, false, length,
  All, All-append, arith, Bool-cases, inl, inr, length-append,
}
use comp.Swap.{Memory}
use comp.Scheduler.{
  ProcessControlBlock, terminated, run_pcb, is_pcb_finished, append_pcb_to_pcbs_list,
}
use comp.Scheduler.Work.{total, pcb_keys, pcb_key, scheduled_keys}
use comp.Scheduler.Arrivals.{append_pcb-append}
use comp.Swap.Release.{Releases}
use comp.Simulation.Sound.{
  running_keys, IsActive, IsEnded, stop_running_lem, IsPointed-of_sizes, InMemory-IsPointed,
}
use comp.Fcfs.{Fcfs, execute}
use comp.Fcfs.Invariant.{IsSteady, Advances, StepResult}

module _ (memsize : ℕ) where
  module _ (s : Fcfs) (pcb : ProcessControlBlock) (h : IsSteady memsize s)
      (a : IsActive s.memory pcb) (e : s.running ≡ some pcb) where
    abbrev stepped : Fcfs
    stepped = record s { running = some (run_pcb pcb); time = s.time + 1 }

    finished : is_pcb_finished (run_pcb pcb) ≡ true → total pcb.job_time ≡ pcb.cpu_time + 1
    unfolding is_pcb_finished run_pcb
    finished f = ground (arith, a.unfinished)

    unfinished : is_pcb_finished (run_pcb pcb) ≡ false → pcb.cpu_time + 1 < total pcb.job_time
    unfolding is_pcb_finished run_pcb
    unfinished f = ground (arith, a.unfinished)

    goes_on_running : is_pcb_finished (run_pcb pcb) ≡ false → Advances memsize s stepped
    unfolding run_pcb
    goes_on_running f = record {
      steady = record {
        sound = record {
          consistent = h.sound.consistent;
          all_fit = h.sound.all_fit;
          pointed = h.sound.pointed;
          unfinished = h.sound.unfinished;
          active = record {
            in_memory = a.in_memory;
            is_running = a.is_running;
            unfinished = unfinished f;
          };
          ended = h.sound.ended;
          can_load = h.sound.can_load;
        };
        alone = ground (arith, h.alone);
        lines = ground (arith, h.lines);
      };
      nearer = ground (arith, unfinished f);
      same_jobs =
          ap
            (λ r.
              pcb_keys s.terminated_list
              ++ (running_keys r ++ (pcb_keys s.ready ++ scheduled_keys s.scheduled_processes)))
            (sym e);
      tick = omega arith;
    }

    abbrev ended_pcb : ProcessControlBlock
    ended_pcb = record (run_pcb pcb) { process_state = terminated }

    abbrev stopped : Memory → Fcfs
    stopped m = record stepped {
      running = none;
      memory = m;
      terminated_list = append_pcb_to_pcbs_list ended_pcb s.terminated_list;
    }

    goes_on_stopped :
        (m : Memory)
        → is_pcb_finished (run_pcb pcb) ≡ true
        → Releases memsize pcb.process_memory s.memory m
        → Advances memsize s (stopped m)
    unfolding run_pcb
    goes_on_stopped m f r = record {
      steady = record {
        sound = record {
          consistent = r.consistent;
          all_fit = subst (All (λ n. n ≤ memsize)) (sym r.same_sizes) h.sound.all_fit;
          pointed = IsPointed-of_sizes s.memory m s.ready r.same_sizes h.sound.pointed;
          unfinished = h.sound.unfinished;
          active = tt;
          ended =
              subst (All IsEnded) (sym (append_pcb-append ended_pcb s.terminated_list)) (
                All-append IsEnded s.terminated_list _ h.sound.ended
                  ((sym (finished f), refl), tt));
          can_load = h.sound.can_load;
        };
        alone = ground (arith, r.fewer a.in_memory, h.alone, e);
        lines = ground (
          arith,
          h.lines,
          e,
          ap length (append_pcb-append ended_pcb s.terminated_list),
          length-append s.terminated_list (ended_pcb ∷ []),
        );
      };
      nearer = ground (arith, finished f, e);
      same_jobs =
          ap (λ l. pcb_keys l ++ (pcb_keys s.ready ++ scheduled_keys s.scheduled_processes))
            (append_pcb-append ended_pcb s.terminated_list)
          ∙ ap (λ l. l ++ (pcb_keys s.ready ++ scheduled_keys s.scheduled_processes))
              (map-append pcb_key s.terminated_list (ended_pcb ∷ []))
          ∙ append_assoc (pcb_keys s.terminated_list) (pcb_key pcb ∷ []) _
          ∙ ap
              (λ r.
                pcb_keys s.terminated_list
                ++ (running_keys r ++ (pcb_keys s.ready ++ scheduled_keys s.scheduled_processes)))
              (sym e);
      tick = omega arith;
    }

    pub execute_running : StepResult memsize s (execute s (some pcb))
    unfolding execute run_pcb
    execute_running = elim (Bool-cases (is_pcb_finished (run_pcb pcb))) [
      | inl f ↦
          let (m, q, r) =
            stop_running_lem memsize (run_pcb pcb) stepped h.sound.consistent
              (InMemory-IsPointed s.memory pcb a.in_memory) in
          rw (f, q, StepResult) (goes_on_stopped m f r)
      | inr f ↦ rw (f, StepResult) (goes_on_running f)
    ]
