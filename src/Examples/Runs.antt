-- ===== src/Examples/Runs.antt =====
-- The simulations of project1/tests that the model reproduces line by line.
use comp.Base.{ℕ, ◌≡◌, refl, List, [], ◌∷◌, map}
use comp.Segments.{
  new_free_memory_segments_list, occupy_first_fit,
  add_new_free_memory_segment_to_free_memory_segments_list, get_free_memory_segments_list_count,
}
use comp.Processes.{
  new_process_memories_list, new_process_memory, add_process_memory_to_process_memories_list,
  get_process_memories_list_not_in_disk_count, get_process_memories_list_not_in_disk_size,
}
use comp.Swap.{
  Outcome, ok, ◌>>=◌, swap_in_process_memory, swap_out_process_memory,
  swap_out_process_memory_by_process_memory,
}
use comp.Parser.{ScheduledProcess, new_scheduled_process}
use comp.Scheduler.{
  SimulationStatus, new_process_control_block_by_scheduled_process, new_pcbs_list,
  pop_front_pcb_from_pcbs_queue, append_pcb_to_pcbs_list, load_pcb, run_pcb, terminate_pcb,
  is_pcb_finished, print_simulation_status, check_scheduled_processes, is_quantum_exhausted_by_pcb,
  ready_and_decrease_priority_pcb,
}
use comp.Simulation.{Simulation, new_simulation, start_running, stop_running, run_rounds}
use comp.Fcfs.{fcfs_scheduler_runner}
use comp.Multi.{multi_scheduler_runner, new_ready_qs}

program : Unit {0}
unfolding new_free_memory_segments_list occupy_first_fit
    add_new_free_memory_segment_to_free_memory_segments_list get_free_memory_segments_list_count
    new_process_memories_list new_process_memory add_process_memory_to_process_memories_list
    get_process_memories_list_not_in_disk_count get_process_memories_list_not_in_disk_size
    swap_in_process_memory swap_out_process_memory swap_out_process_memory_by_process_memory
    new_scheduled_process new_process_control_block_by_scheduled_process new_pcbs_list
    pop_front_pcb_from_pcbs_queue append_pcb_to_pcbs_list load_pcb run_pcb terminate_pcb
    is_pcb_finished print_simulation_status check_scheduled_processes is_quantum_exhausted_by_pcb
    ready_and_decrease_priority_pcb new_simulation start_running stop_running run_rounds
    fcfs_scheduler_runner multi_scheduler_runner new_ready_qs
program = tt

abbrev pub process : ℕ → ℕ → ℕ → ℕ → ScheduledProcess
process start_time process_id memory_size job_time = record {
  start_time = start_time;
  process_id = process_id;
  memory_size = memory_size;
  job_time = job_time;
}

-- project1/tests/specInput.txt.
abbrev pub spec_input : List ScheduledProcess
spec_input = process 0 4 98 15 ∷ process 3 2 33 20 ∷ process 5 1 100 10 ∷ process 20 3 5 15 ∷ []

-- The numbers of a printed line, and the time at the end.
abbrev lines : {Q : Type 0} → Outcome (Simulation Q) → Outcome (ℕ × List (List ℕ))
lines o = o >>= λ s. ok (
  s.time,
  map
      (λ (l : SimulationStatus).
        l.time ∷ l.process_id ∷ l.numprocesses ∷ l.numholes ∷ l.memusage ∷ [])
      s.output,
)

fcfs_lines :
    lines (fcfs_scheduler_runner 100 100 spec_input)
    ≡ ok (
      60,
      (0 ∷ 4 ∷ 1 ∷ 1 ∷ 98 ∷ [])
          ∷ (15 ∷ 2 ∷ 1 ∷ 1 ∷ 33 ∷ [])
          ∷ (35 ∷ 1 ∷ 1 ∷ 0 ∷ 100 ∷ [])
          ∷ (45 ∷ 3 ∷ 1 ∷ 1 ∷ 5 ∷ [])
          ∷ [],
    )
unfolding program
fcfs_lines = refl

multi_lines :
    lines (multi_scheduler_runner 100 100 spec_input)
    ≡ ok (
      60,
      (0 ∷ 4 ∷ 1 ∷ 1 ∷ 98 ∷ [])
          ∷ (2 ∷ 4 ∷ 1 ∷ 1 ∷ 98 ∷ [])
          ∷ (6 ∷ 2 ∷ 1 ∷ 1 ∷ 33 ∷ [])
          ∷ (8 ∷ 1 ∷ 1 ∷ 0 ∷ 100 ∷ [])
          ∷ (10 ∷ 2 ∷ 1 ∷ 1 ∷ 33 ∷ [])
          ∷ (14 ∷ 1 ∷ 1 ∷ 0 ∷ 100 ∷ [])
          ∷ (18 ∷ 4 ∷ 1 ∷ 1 ∷ 98 ∷ [])
          ∷ (26 ∷ 3 ∷ 1 ∷ 1 ∷ 5 ∷ [])
          ∷ (28 ∷ 3 ∷ 1 ∷ 1 ∷ 5 ∷ [])
          ∷ (32 ∷ 2 ∷ 2 ∷ 1 ∷ 38 ∷ [])
          ∷ (40 ∷ 1 ∷ 1 ∷ 0 ∷ 100 ∷ [])
          ∷ (44 ∷ 4 ∷ 1 ∷ 1 ∷ 98 ∷ [])
          ∷ (45 ∷ 3 ∷ 1 ∷ 1 ∷ 5 ∷ [])
          ∷ (53 ∷ 2 ∷ 2 ∷ 1 ∷ 38 ∷ [])
          ∷ (59 ∷ 3 ∷ 1 ∷ 1 ∷ 5 ∷ [])
          ∷ [],
    )
unfolding program
multi_lines = refl
