-- ===== src/Simulation.antt =====
-- The variables of the two runners in project1/process-scheduler.c, and the parts that the loops of
-- both share.
pub mod Sound
pub mod Loop
use comp.Base.{ℕ, ◌+◌, List, [], ◌∷◌, ◌++◌, Option, none, some, zero, suc}
use comp.Segments.{new_free_memory_segments_list}
use comp.Processes.{new_process_memories_list}
use comp.Swap.{Memory, Outcome, ok, no_fuel, ◌>>=◌}
use comp.Parser.{ScheduledProcess}
use comp.Scheduler.{
  ProcessControlBlock, PcbsQueue, SimulationStatus, load_pcb, print_simulation_status,
  terminate_pcb, append_pcb_to_pcbs_list, run_pcb, new_pcbs_list,
}

-- `Q` holds the processes that wait. `output` is what was printed so far, in order.
pub record Simulation (Q : Type 0) : Type 0 where
  pub time : ℕ
  pub running : Option ProcessControlBlock
  pub ready : Q
  pub terminated_list : PcbsQueue
  pub scheduled_processes : List ScheduledProcess
  pub memory : Memory
  pub output : List SimulationStatus

-- One round of a runner's loop ends in the next round or in a `break`.
pub data Round (Q : Type 0) : Type 0 where
  goes_on : Simulation Q → Round Q
  breaks : Simulation Q → Round Q

module _ {Q : Type 0} where
  -- The variables before the loop.
  unfoldable pub new_simulation : Q → ℕ → List ScheduledProcess → Simulation Q
  new_simulation ready memsize sps = record {
    time = 0;
    running = none;
    ready = ready;
    terminated_list = new_pcbs_list;
    scheduled_processes = sps;
    memory = record {
      processes = new_process_memories_list;
      free = new_free_memory_segments_list memsize;
    };
    output = [];
  }

  -- The popped process is loaded, and a line is printed.
  unfoldable pub start_running : ℕ → ProcessControlBlock → Simulation Q → Outcome (Simulation Q)
  start_running memsize pcb s = do
    (pcb', m) ← load_pcb pcb s.time s.memory
    line ← print_simulation_status s.time pcb' m memsize
    ok (record s { running = some pcb'; memory = m; output = s.output ++ line ∷ [] })

  -- The running process has finished.
  unfoldable pub stop_running : ProcessControlBlock → Simulation Q → Outcome (Simulation Q)
  stop_running pcb s = do
    (pcb', m) ← terminate_pcb pcb s.memory
    ok (record s {
      running = none;
      memory = m;
      terminated_list = append_pcb_to_pcbs_list pcb' s.terminated_list;
    })

  -- The loop of a runner, for `fuel` rounds at most.
  unfoldable pub run_rounds :
      (Simulation Q → Outcome (Round Q)) → ℕ → Simulation Q → Outcome (Simulation Q)
  run_rounds round zero s = no_fuel
  run_rounds round (suc fuel) s =
      round s >>= elim [ goes_on s' ↦ run_rounds round fuel s' | breaks s' ↦ ok s' ]
