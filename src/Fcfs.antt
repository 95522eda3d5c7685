-- ===== src/Fcfs.antt =====
-- project1/process-scheduler.c, `fcfs_scheduler_runner`.
pub mod Invariant
pub mod Execute
pub mod Start
pub mod Runner
use comp.Base.{ℕ, ◌+◌, List, [], ◌∷◌, Option, none, some, true, false, if◌then◌else◌}
use comp.Swap.{Memory, Outcome, ok, ◌>>=◌}
use comp.Parser.{ScheduledProcess}
use comp.Scheduler.{
  ProcessControlBlock, PcbsQueue, new_pcbs_queue, check_scheduled_processes,
  pop_front_pcb_from_pcbs_queue, run_pcb, is_pcb_finished,
}
use comp.Simulation.{
  Simulation, Round, goes_on, breaks, new_simulation, start_running, stop_running, run_rounds,
}

abbrev pub Fcfs : Type 0
Fcfs = Simulation PcbsQueue

pub admit : Fcfs → Fcfs
admit s =
    let arrived =
      check_scheduled_processes s.scheduled_processes s.time s.ready s.memory.processes in
    record s {
      scheduled_processes = arrived.scheduled;
      ready = arrived.ready_queue;
      memory = record (s.memory) { processes = arrived.processes };
    }

-- With no process running: load the next one, or end the loop if none waits and none will come, or
-- stay idle.
pub next_process :
    ℕ
    → Fcfs
    → Option (ProcessControlBlock × PcbsQueue)
    → List ScheduledProcess
    → Outcome (Round PcbsQueue)
next_process memsize s (some (pcb, rest)) _ = do
  s' ← start_running memsize pcb (record s { ready = rest })
  ok (goes_on s')
next_process memsize s none [] = ok (breaks s)
next_process memsize s none (sp ∷ sps) = ok (goes_on s)

pub dispatch : ℕ → Fcfs → Option ProcessControlBlock → Outcome (Round PcbsQueue)
unfolding next_process
dispatch memsize s (some pcb) = ok (goes_on s)
dispatch memsize s none =
    next_process memsize s (pop_front_pcb_from_pcbs_queue s.ready) s.scheduled_processes

-- One time step of the running process, and its end if it has finished.
pub execute : Fcfs → Option ProcessControlBlock → Outcome Fcfs
execute s none = ok (record s { time = s.time + 1 })
execute s (some pcb) =
    let pcb' = run_pcb pcb in
    let s' = record s { running = some pcb'; time = s.time + 1 } in
    elim (is_pcb_finished pcb') [ true ↦ stop_running pcb' s' | false ↦ ok s' ]

pub after_dispatch : Round PcbsQueue → Outcome (Round PcbsQueue)
unfolding execute
after_dispatch (breaks s) = ok (breaks s)
after_dispatch (goes_on s) = do s' ← execute s s.running; ok (goes_on s')

-- The body of the loop.
unfoldable pub fcfs_round : ℕ → Fcfs → Outcome (Round PcbsQueue)
unfolding admit dispatch after_dispatch
fcfs_round memsize s = let s' = admit s in dispatch memsize s' s'.running >>= after_dispatch

-- The scheduled processes are those parsed from the file.
unfoldable pub fcfs_scheduler_runner : ℕ → ℕ → List ScheduledProcess → Outcome Fcfs
unfolding fcfs_round
fcfs_scheduler_runner fuel memsize sps =
    run_rounds (fcfs_round memsize) fuel (new_simulation new_pcbs_queue memsize sps)
