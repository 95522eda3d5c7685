-- ===== src/Examples/Schedulers.antt =====
-- Instances of the theorems about the runners of project1/process-scheduler.c.
use comp.Base.{ℕ, ◌≤◌, ◌≡◌, refl, [], ◌∷◌, length, All, arith}
use comp.Processes.{get_process_memories_list_not_in_disk_count}
use comp.Swap.{ok}
use comp.Swap.Invariant.{IsConsistent}
use comp.Scheduler.{ProcessControlBlock, ready, check_scheduled_processes, add_pcb_to_pcbs_queue}
use comp.Scheduler.Queue.{Joins, IsOrdered, add_pcb_to_pcbs_queue_lem}
use comp.Scheduler.Work.{times, pcb_keys, scheduled_keys}
use comp.Scheduler.Admitting.{Admits}
use comp.Scheduler.Arrivals.{check_scheduled_processes_lem}
use comp.Simulation.Sound.{IsEnded}
use comp.Fcfs.{Fcfs, fcfs_scheduler_runner}
use comp.Fcfs.Runner.{fcfs_scheduler_runner_lem}
use comp.Multi.{Multi, ReadyQs, multi_scheduler_runner, pop_from_ready_qs}
use comp.Multi.Queues.{IsLevelled, PopResult, pop_from_ready_qs_lem}
use comp.Multi.Runner.{multi_scheduler_runner_lem}
use comp.Examples.Runs.{process, spec_input}
use comp.Examples.Storage.{memory, memory-IsConsistent}

fcfs_scheduler_runner_lem_example :
    (s : Fcfs) × (fcfs_scheduler_runner 100 100 spec_input ≡ ok s)
    × (pcb_keys s.terminated_list ≡ scheduled_keys spec_input)
    × All IsEnded s.terminated_list
    × (length s.output ≡ 4)
    × (s.time ≤ 81)
    × IsConsistent 100 s.memory
    × (get_process_memories_list_not_in_disk_count s.memory.processes ≡ 0)
fcfs_scheduler_runner_lem_example =
    fcfs_scheduler_runner_lem 100 100 spec_input (omega arith) (omega arith) (omega arith)

multi_scheduler_runner_lem_example :
    (s : Multi) × (multi_scheduler_runner 100 100 spec_input ≡ ok s)
    × ((id job : ℕ)
        → times id job (pcb_keys s.terminated_list) ≡ times id job (scheduled_keys spec_input))
    × All IsEnded s.terminated_list
    × (s.time ≤ 81)
    × IsConsistent 100 s.memory
multi_scheduler_runner_lem_example =
    multi_scheduler_runner_lem 100 100 spec_input (omega arith) (omega arith) (omega arith)

abbrev waiting : ℕ → ℕ → ProcessControlBlock
waiting id level = record {
  process_id = id;
  process_state = ready;
  process_memory = 1;
  priority = level;
  job_time = 9;
  burst_time = 0;
  cpu_time = 2;
}

abbrev queues : ReadyQs
queues = record { first = []; second = waiting 7 2 ∷ waiting 8 2 ∷ []; third = waiting 9 3 ∷ [] }

queues-IsLevelled : IsLevelled queues
queues-IsLevelled = record {
  at_first = tt;
  at_second = ((refl, refl), ((refl, refl), tt));
  at_third = ((refl, refl), tt);
}

pop_from_ready_qs_lem_example : PopResult queues (pop_from_ready_qs queues)
pop_from_ready_qs_lem_example = pop_from_ready_qs_lem queues queues-IsLevelled

check_scheduled_processes_lem_example :
    Admits 10 3
      (process 0 4 8 15 ∷ process 5 2 3 20 ∷ [])
      []
      memory.free
      memory.processes
      (check_scheduled_processes (process 0 4 8 15 ∷ process 5 2 3 20 ∷ []) 3 [] memory.processes)
check_scheduled_processes_lem_example =
    check_scheduled_processes_lem 10 3 memory.free (process 0 4 8 15 ∷ process 5 2 3 20 ∷ []) []
      memory.processes memory-IsConsistent (omega arith) (omega arith)

add_pcb_to_pcbs_queue_lem_example :
    IsOrdered (add_pcb_to_pcbs_queue (waiting 5 2) (waiting 4 2 ∷ waiting 9 3 ∷ []))
    × Joins
        (waiting 5 2)
        (waiting 4 2 ∷ waiting 9 3 ∷ [])
        (add_pcb_to_pcbs_queue (waiting 5 2) (waiting 4 2 ∷ waiting 9 3 ∷ []))
add_pcb_to_pcbs_queue_lem_example =
    add_pcb_to_pcbs_queue_lem (waiting 5 2) (waiting 4 2 ∷ waiting 9 3 ∷ []) (omega arith)
