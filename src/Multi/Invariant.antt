-- ===== src/Multi/Invariant.antt =====
-- What holds between the rounds of `multi_scheduler_runner` in project1/process-scheduler.c, and
-- what a round does.
use mathlib.Core.List.{map-append}
use comp.Base.{
  ℕ, suc, ◌+◌, ◌≤◌, ◌<◌, ◌≡◌, sym, ap, subst, List, [], ◌∷◌, ◌++◌, Option, none, some, All,
  All-append, All-split, arith,
}
use comp.Processes.{ProcessMemory}
use comp.Swap.{Memory, Outcome, ok}
use comp.Scheduler.{
  ProcessControlBlock, PcbsQueue, min_priority, get_quantum_by_pcb, check_scheduled_processes,
}
use comp.Scheduler.Work.{
  work, work-append, pcb_keys, pcb_key, scheduled_keys, times, times-append, IsUnfinished,
}
use comp.Scheduler.Admitting.{IsAhead, IsFresh}
use comp.Scheduler.Arrivals.{check_scheduled_processes_lem}
use comp.Simulation.{Round, goes_on, breaks}
use comp.Simulation.Sound.{
  running_keys, IsSound, measure, IsPointed, IsPointed-extended, IsActive?-extended,
  IsFresh-IsPointed, IsFresh-IsUnfinished,
}
use comp.Multi.{Multi, ReadyQs, admit}
use comp.Multi.Queues.{by_priority, IsLevelled, IsAtLevel}

-- The running process has a priority of 1, 2 or 3 and time left of its quantum.
abbrev pub IsInSlice : Option ProcessControlBlock → Type 0
IsInSlice none = Unit
IsInSlice (some pcb) =
    (0 < pcb.priority) × (pcb.priority ≤ min_priority) × (pcb.burst_time < get_quantum_by_pcb pcb)

-- How often a job, an id and a job time, stands among those that ended, run, wait or are to come.
abbrev pub jobs : ℕ → ℕ → Multi → ℕ
jobs id job s =
    times id job (pcb_keys s.terminated_list)
    + times id job (running_keys s.running)
    + times id job (pcb_keys (by_priority s.ready))
    + times id job (scheduled_keys s.scheduled_processes)

IsFresh-IsAtLevel :
    (procs : List ProcessMemory) (pcbs : PcbsQueue)
    → All (IsFresh procs) pcbs
    → All (IsAtLevel 1) pcbs
IsFresh-IsAtLevel procs [] h = tt
IsFresh-IsAtLevel procs (pcb ∷ rest) h = ((h.0.top, h.0.waits), IsFresh-IsAtLevel procs rest h.1)

module _ (P : ProcessControlBlock → Type 0) (first new first' rest : PcbsQueue)
    (e : first' ≡ first ++ new) where
  All-arrivals : All P (first ++ rest) → All P new → All P (first' ++ rest)
  All-arrivals h k =
      let (x, y) = All-split P first rest h in
      All-append P first' rest (subst (All P) (sym e) (All-append P first new x k)) y

work-arrivals :
    (first new first' rest : PcbsQueue)
    → first' ≡ first ++ new
    → work (first' ++ rest) ≡ work (first ++ rest) + work new
work-arrivals first new first' rest e =
    omega (arith, ap work e, work-append first new, work-append first' rest, work-append first rest)

times-arrivals :
    (id job : ℕ) (first new first' rest : PcbsQueue)
    → first' ≡ first ++ new
    → times id job (pcb_keys (first' ++ rest))
      ≡ times id job (pcb_keys (first ++ rest)) + times id job (pcb_keys new)
times-arrivals id job first new first' rest e = omega (
  arith,
  ap (λ l. times id job (pcb_keys l)) e,
  ap (times id job) (map-append pcb_key first new),
  ap (times id job) (map-append pcb_key first' rest),
  ap (times id job) (map-append pcb_key first rest),
  times-append id job (pcb_keys first) (pcb_keys new),
  times-append id job (pcb_keys first') (pcb_keys rest),
  times-append id job (pcb_keys first) (pcb_keys rest),
)

module _ (memsize : ℕ) where
  -- Besides what holds of every runner: each process waits in the queue of its priority, and the
  -- running one is within its quantum.
  pub record IsOrderly (s : Multi) : Type 0 where
    pub sound : IsSound by_priority memsize s
    pub levelled : IsLevelled s.ready
    pub in_slice : IsInSlice s.running

  abbrev pub rounds_left : Multi → ℕ
  rounds_left = measure by_priority memsize

  pub record Admitted (s s' : Multi) : Type 0 where
    pub orderly : IsOrderly s'
    pub no_more : rounds_left s' ≤ rounds_left s
    pub same_jobs : (id job : ℕ) → jobs id job s' ≡ jobs id job s
    pub ahead : IsAhead s'.time s'.scheduled_processes

  pub admit-Admitted : (s : Multi) → IsOrderly s → Admitted s (admit s)
  unfolding admit
  admit-Admitted s h =
      let r =
        check_scheduled_processes_lem memsize s.time s.memory.free s.scheduled_processes
          (s.ready).first s.memory.processes h.sound.consistent h.sound.all_fit h.sound.can_load in
      let a =
        check_scheduled_processes s.scheduled_processes s.time (s.ready).first s.memory.processes in
      let m : Memory = record (s.memory) { processes = a.processes } in
      let rest : PcbsQueue = (s.ready).second ++ (s.ready).third in
      record {
        orderly = record {
          sound = record {
            consistent = r.consistent;
            all_fit = r.all_fit;
            pointed =
                All-arrivals (IsPointed m) (s.ready).first r.new a.ready_queue rest r.queued
                  (IsPointed-extended s.memory a.processes r.added r.extended (by_priority s.ready)
                    h.sound.pointed)
                  (IsFresh-IsPointed m r.new r.fresh);
            unfinished =
                All-arrivals IsUnfinished (s.ready).first r.new a.ready_queue rest r.queued
                  h.sound.unfinished (IsFresh-IsUnfinished a.processes r.new r.fresh);
            active =
                IsActive?-extended s.memory a.processes r.added r.extended s.running h.sound.active;
            ended = h.sound.ended;
            can_load = r.can_load;
          };
          levelled = record {
            at_first = subst (All (IsAtLevel 1)) (sym r.queued) (
                All-append (IsAtLevel 1) (s.ready).first r.new h.levelled.at_first
                  (IsFresh-IsAtLevel a.processes r.new r.fresh));
            at_second = h.levelled.at_second;
            at_third = h.levelled.at_third;
          };
          in_slice = h.in_slice;
        };
        no_more = omega (
          arith,
          r.same_work,
          r.no_later,
          work-arrivals (s.ready).first r.new a.ready_queue rest r.queued,
        );
        same_jobs = λ id job. omega (
          arith,
          times-arrivals id job (s.ready).first r.new a.ready_queue rest r.queued,
          ap (times id job) r.same_jobs,
          times-append id job (pcb_keys r.new) (scheduled_keys a.scheduled),
        );
        ahead = r.ahead;
      }

  -- A round that goes on: the loop is nearer to its end, time has moved by one, and the jobs are
  -- the same.
  pub record Advances (s s' : Multi) : Type 0 where
    pub orderly : IsOrderly s'
    pub nearer : rounds_left s' < rounds_left s
    pub same_jobs : (id job : ℕ) → jobs id job s' ≡ jobs id job s
    pub tick : s'.time ≡ suc s.time

  -- A round that ends the loop: nothing runs, nothing waits and nothing is to come.
  pub record Ends (s s' : Multi) : Type 0 where
    pub orderly : IsOrderly s'
    pub idle : s'.running ≡ none
    pub drained : by_priority s'.ready ≡ []
    pub exhausted : s'.scheduled_processes ≡ []
    pub same_jobs : (id job : ℕ) → jobs id job s' ≡ jobs id job s
    pub same_time : s'.time ≡ s.time

  abbrev pub StepResult : Multi → Outcome Multi → Type 0
  StepResult s (ok s') = Advances s s'
  StepResult s Outcome.undefined = ⊥
  StepResult s Outcome.no_fuel = ⊥

  abbrev pub RoundResult : Multi → Outcome (Round ReadyQs) → Type 0
  RoundResult s (ok (goes_on s')) = Advances s s'
  RoundResult s (ok (breaks s')) = Ends s s'
  RoundResult s Outcome.undefined = ⊥
  RoundResult s Outcome.no_fuel = ⊥
