-- ===== src/Multi.antt =====
-- project1/process-scheduler.c, `multi_scheduler_runner`.
pub mod Queues
pub mod Invariant
pub mod Execute
pub mod Start
pub mod Runner
use comp.Base.{ℕ, ◌+◌, ◌-◌, List, [], ◌∷◌, Option, none, some, true, false, ◌==◌, if◌then◌else◌}
use comp.Swap.{Outcome, ok, undefined, ◌>>=◌}
use comp.Parser.{ScheduledProcess}
use comp.Scheduler.{
  ProcessControlBlock, PcbsQueue, new_pcbs_queue, check_scheduled_processes,
  pop_front_pcb_from_pcbs_queue, append_pcb_to_pcbs_list, run_pcb, is_pcb_finished,
  is_quantum_exhausted_by_pcb, ready_and_decrease_priority_pcb,
}
use comp.Simulation.{
  Simulation, Round, goes_on, breaks, new_simulation, start_running, stop_running, run_rounds,
}

-- The array `ready_qs` of MIN_PRIORITY queues, indices 0, 1 and 2.
pub record ReadyQs : Type 0 where
  pub first : PcbsQueue
  pub second : PcbsQueue
  pub third : PcbsQueue

abbrev pub Multi : Type 0
Multi = Simulation ReadyQs

unfoldable pub new_ready_qs : ReadyQs
new_ready_qs = record { first = new_pcbs_queue; second = new_pcbs_queue; third = new_pcbs_queue }

-- `append_pcb_to_pcbs_list(pcb, ready_qs[index])`; an index past the array is undefined.
pub append_to_ready_qs : ProcessControlBlock → ℕ → ReadyQs → Outcome ReadyQs
append_to_ready_qs pcb index qs =
    if index == 0
    then ok (record qs { first = append_pcb_to_pcbs_list pcb qs.first })
    else if index == 1
    then ok (record qs { second = append_pcb_to_pcbs_list pcb qs.second })
    else if index == 2
    then ok (record qs { third = append_pcb_to_pcbs_list pcb qs.third })
    else undefined

-- The loop that pops from the first queue that is not empty.
pop_third :
    ReadyQs → Option (ProcessControlBlock × PcbsQueue) → Option (ProcessControlBlock × ReadyQs)
pop_third qs none = none
pop_third qs (some (pcb, rest)) = some (pcb, record qs { third = rest })

pop_second :
    ReadyQs → Option (ProcessControlBlock × PcbsQueue) → Option (ProcessControlBlock × ReadyQs)
unfolding pop_third
pop_second qs none = pop_third qs (pop_front_pcb_from_pcbs_queue qs.third)
pop_second qs (some (pcb, rest)) = some (pcb, record qs { second = rest })

pop_first :
    ReadyQs → Option (ProcessControlBlock × PcbsQueue) → Option (ProcessControlBlock × ReadyQs)
unfolding pop_second
pop_first qs none = pop_second qs (pop_front_pcb_from_pcbs_queue qs.second)
pop_first qs (some (pcb, rest)) = some (pcb, record qs { first = rest })

pub pop_from_ready_qs : ReadyQs → Option (ProcessControlBlock × ReadyQs)
unfolding pop_first
pop_from_ready_qs qs = pop_first qs (pop_front_pcb_from_pcbs_queue qs.first)

pub admit : Multi → Multi
admit s =
    let arrived =
      check_scheduled_processes s.scheduled_processes s.time (s.ready).first s.memory.processes in
    record s {
      scheduled_processes = arrived.scheduled;
      ready = record (s.ready) { first = arrived.ready_queue };
      memory = record (s.memory) { processes = arrived.processes };
    }

-- With no process running: load the next one, or end the loop if none waits and none will come, or
-- stay idle.
pub next_process :
    ℕ
    → Multi
    → Option (ProcessControlBlock × ReadyQs)
    → List ScheduledProcess
    → Outcome (Round ReadyQs)
next_process memsize s (some (pcb, qs)) _ = do
  s' ← start_running memsize pcb (record s { ready = qs })
  ok (goes_on s')
next_process memsize s none [] = ok (breaks s)
next_process memsize s none (sp ∷ sps) = ok (goes_on s)

pub dispatch : ℕ → Multi → Option ProcessControlBlock → Outcome (Round ReadyQs)
unfolding next_process pop_from_ready_qs
dispatch memsize s (some pcb) = ok (goes_on s)
dispatch memsize s none = next_process memsize s (pop_from_ready_qs s.ready) s.scheduled_processes

-- The running process goes to the end of the queue of its new, lower priority.
pub requeue : ProcessControlBlock → Multi → Outcome Multi
unfolding append_to_ready_qs
requeue pcb s = do
  let pcb' = ready_and_decrease_priority_pcb pcb
  qs ← append_to_ready_qs pcb' (pcb'.priority - 1) s.ready
  ok (record s { running = none; ready = qs })

-- One time step of the running process, and its end or the end of its quantum.
pub execute : Multi → Option ProcessControlBlock → Outcome Multi
unfolding requeue
execute s none = ok (record s { time = s.time + 1 })
execute s (some pcb) =
    let pcb' = run_pcb pcb in
    let s' = record s { running = some pcb'; time = s.time + 1 } in
    elim (is_pcb_finished pcb') [
      | true ↦ stop_running pcb' s'
      | false ↦ elim (is_quantum_exhausted_by_pcb pcb') [ true ↦ requeue pcb' s' | false ↦ ok s' ]
    ]

pub after_dispatch : Round ReadyQs → Outcome (Round ReadyQs)
unfolding execute
after_dispatch (breaks s) = ok (breaks s)
after_dispatch (goes_on s) = do s' ← execute s s.running; ok (goes_on s')

-- The body of the loop.
unfoldable pub multi_round : ℕ → Multi → Outcome (Round ReadyQs)
unfolding admit dispatch after_dispatch
multi_round memsize s = let s' = admit s in dispatch memsize s' s'.running >>= after_dispatch

-- The scheduled processes are those parsed from the file.
unfoldable pub multi_scheduler_runner : ℕ → ℕ → List ScheduledProcess → Outcome Multi
unfolding multi_round
multi_scheduler_runner fuel memsize sps =
    run_rounds (multi_round memsize) fuel (new_simulation new_ready_qs memsize sps)
