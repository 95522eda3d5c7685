-- ===== src/Fcfs/Invariant.antt =====
-- What holds between the rounds of `fcfs_scheduler_runner` in project1/process-scheduler.c, and
-- what a round does.
use mathlib.Core.List.{append_assoc, map-append}
use comp.Base.{
  ℕ, suc, ◌+◌, ◌≤◌, ◌<◌, ◌≡◌, sym, ap, subst, ◌∙◌, List, [], ◌++◌, Option, none, some, length, All,
  All-append, arith,
}
use comp.Processes.{get_process_memories_list_not_in_disk_count}
use comp.Swap.{Memory, Outcome, ok}
use comp.Parser.{ScheduledProcess}
use comp.Scheduler.{ProcessControlBlock, PcbsQueue, check_scheduled_processes}
use comp.Scheduler.Work.{work, work-append, pcb_keys, pcb_key, scheduled_keys, IsUnfinished}
use comp.Scheduler.Admitting.{IsAhead}
use comp.Scheduler.Arrivals.{check_scheduled_processes_lem}
use comp.Simulation.{Round, goes_on, breaks}
use comp.Simulation.Sound.{
  running_keys, IsSound, measure, IsPointed, IsPointed-extended, IsActive?-extended,
  IsFresh-IsPointed, IsFresh-IsUnfinished,
}
use comp.Fcfs.{Fcfs, admit}

abbrev pub in_order : PcbsQueue → PcbsQueue
in_order queue = queue

abbrev pub running_count : Option ProcessControlBlock → ℕ
running_count none = 0
running_count (some pcb) = 1

-- Every job: those that ended, the running one, those that wait and those to come, in this order.
abbrev pub jobs : Fcfs → List (ℕ × ℕ)
jobs s =
    pcb_keys s.terminated_list
    ++ (running_keys s.running ++ (pcb_keys s.ready ++ scheduled_keys s.scheduled_processes))

queue_jobs :
    (queue new queue' : PcbsQueue) (left sps : List ScheduledProcess)
    → queue' ≡ queue ++ new
    → pcb_keys new ++ scheduled_keys left ≡ scheduled_keys sps
    → pcb_keys queue' ++ scheduled_keys left ≡ pcb_keys queue ++ scheduled_keys sps
queue_jobs queue new queue' left sps e h =
    ap (λ l. pcb_keys l ++ scheduled_keys left) e
    ∙ ap (λ l. l ++ scheduled_keys left) (map-append pcb_key queue new)
    ∙ append_assoc (pcb_keys queue) (pcb_keys new) (scheduled_keys left)
    ∙ ap (λ l. pcb_keys queue ++ l) h

module _ (memsize : ℕ) where
  -- Besides what holds of every runner: only the running process is in main memory, and each line
  -- printed is of a process that ended or runs.
  pub record IsSteady (s : Fcfs) : Type 0 where
    pub sound : IsSound in_order memsize s
    pub alone :
        get_process_memories_list_not_in_disk_count s.memory.processes ≤ running_count s.running
    pub lines : length s.output ≡ length s.terminated_list + running_count s.running

  abbrev pub rounds_left : Fcfs → ℕ
  rounds_left = measure in_order memsize

  pub record Admitted (s s' : Fcfs) : Type 0 where
    pub steady : IsSteady s'
    pub no_more : rounds_left s' ≤ rounds_left s
    pub same_jobs : jobs s' ≡ jobs s
    pub ahead : IsAhead s'.time s'.scheduled_processes

  pub admit-Admitted : (s : Fcfs) → IsSteady s → Admitted s (admit s)
  unfolding admit
  admit-Admitted s h =
      let r =
        check_scheduled_processes_lem memsize s.time s.memory.free s.scheduled_processes s.ready
          s.memory.processes h.sound.consistent h.sound.all_fit h.sound.can_load in
      let a = check_scheduled_processes s.scheduled_processes s.time s.ready s.memory.processes in
      let m : Memory = record (s.memory) { processes = a.processes } in
      record {
        steady = record {
          sound = record {
            consistent = r.consistent;
            all_fit = r.all_fit;
            pointed = subst (All (IsPointed m)) (sym r.queued) (
                All-append (IsPointed m) s.ready r.new
                  (IsPointed-extended s.memory a.processes r.added r.extended s.ready
                    h.sound.pointed)
                  (IsFresh-IsPointed m r.new r.fresh));
            unfinished = subst (All IsUnfinished) (sym r.queued) (
                All-append IsUnfinished s.ready r.new h.sound.unfinished
                  (IsFresh-IsUnfinished a.processes r.new r.fresh));
            active =
                IsActive?-extended s.memory a.processes r.added r.extended s.running h.sound.active;
            ended = h.sound.ended;
            can_load = r.can_load;
          };
          alone = omega (arith, r.same_count, h.alone);
          lines = h.lines;
        };
        no_more =
            omega (arith, r.same_work, r.no_later, ap work r.queued, work-append s.ready r.new);
        same_jobs =
            ap (λ l. pcb_keys s.terminated_list ++ (running_keys s.running ++ l))
              (queue_jobs s.ready r.new a.ready_queue a.scheduled s.scheduled_processes r.queued
                r.same_jobs);
        ahead = r.ahead;
      }

  -- A round that goes on: the loop is nearer to its end, time has moved by one, and the jobs are
  -- the same, in the same order.
  pub record Advances (s s' : Fcfs) : Type 0 where
    pub steady : IsSteady s'
    pub nearer : rounds_left s' < rounds_left s
    pub same_jobs : jobs s' ≡ jobs s
    pub tick : s'.time ≡ suc s.time

  -- A round that ends the loop: nothing runs, nothing waits and nothing is to come.
  pub record Ends (s s' : Fcfs) : Type 0 where
    pub steady : IsSteady s'
    pub idle : s'.running ≡ none
    pub drained : s'.ready ≡ []
    pub exhausted : s'.scheduled_processes ≡ []
    pub same_jobs : jobs s' ≡ jobs s
    pub same_time : s'.time ≡ s.time

  abbrev pub StepResult : Fcfs → Outcome Fcfs → Type 0
  StepResult s (ok s') = Advances s s'
  StepResult s Outcome.undefined = ⊥
  StepResult s Outcome.no_fuel = ⊥

  abbrev pub RoundResult : Fcfs → Outcome (Round PcbsQueue) → Type 0
  RoundResult s (ok (goes_on s')) = Advances s s'
  RoundResult s (ok (breaks s')) = Ends s s'
  RoundResult s Outcome.undefined = ⊥
  RoundResult s Outcome.no_fuel = ⊥
