-- ===== src/Scheduler.antt =====
-- project1/process-scheduler.c and .h: process control blocks, their queues and lists, and what the
-- schedulers do with one process control block. A queue is a list, its head first.
pub mod Queue
pub mod Loading
pub mod Work
pub mod Admitting
pub mod Arrivals
use comp.Base.{
  ℕ, suc, ◌+◌, ◌*◌, ◌/◌, ◌%◌, List, [], ◌∷◌, Option, none, some, Bool, true, false, ◌&&◌, ◌||◌, ltb,
  leb, ◌==◌, if◌then◌else◌, length, get_elem?,
}
use comp.Segments.{get_free_memory_segments_list_count}
use comp.Processes.{
  ProcessMemory, is_process_memory_in_disk, new_process_memory,
  add_process_memory_to_process_memories_list, get_process_memories_list_not_in_disk_count,
  get_process_memories_list_not_in_disk_size,
}
use comp.Swap.{
  Memory, Outcome, ok, undefined, deref, ◌>>=◌, swap_in_process_memory,
  swap_out_process_memory_by_process_memory,
}
use comp.Parser.{ScheduledProcess}

abbrev pub min_priority : ℕ
min_priority = 3

abbrev q1_quantum : ℕ
q1_quantum = 2

abbrev q2_quantum : ℕ
q2_quantum = 4

abbrev q3_quantum : ℕ
q3_quantum = 8

pub data ProcessState : Type 0 where
  ready running terminated : ProcessState

-- `process_memory` is the position of the process memory in the process memories list.
pub record ProcessControlBlock : Type 0 where
  pub process_id : ℕ
  pub process_state : ProcessState
  pub process_memory : ℕ
  pub priority : ℕ
  pub job_time : ℕ
  pub burst_time : ℕ
  pub cpu_time : ℕ

abbrev pub PcbsQueue : Type 0
PcbsQueue = List ProcessControlBlock

unfoldable pub new_process_control_block :
    ℕ → ℕ → ℕ → List ProcessMemory → ProcessControlBlock × List ProcessMemory
new_process_control_block process_id memory_size job_time procs = (
  record {
    process_id = process_id;
    process_state = ready;
    process_memory = length procs;
    priority = 1;
    job_time = job_time;
    burst_time = 0;
    cpu_time = 0;
  },
  add_process_memory_to_process_memories_list (new_process_memory memory_size process_id) procs,
)

unfoldable pub new_process_control_block_by_scheduled_process :
    ScheduledProcess → List ProcessMemory → ProcessControlBlock × List ProcessMemory
unfolding new_process_control_block
new_process_control_block_by_scheduled_process sp =
    new_process_control_block sp.process_id sp.memory_size sp.job_time

unfoldable pub new_pcbs_queue : PcbsQueue
new_pcbs_queue = []

unfoldable pub new_pcbs_list : PcbsQueue
unfolding new_pcbs_queue
new_pcbs_list = new_pcbs_queue

-- The test of `add_pcb_to_pcbs_queue`: a smaller priority value, or the same and a smaller id.
goes_before : ProcessControlBlock → ProcessControlBlock → Bool
goes_before pcb curr =
    ltb pcb.priority curr.priority
    || pcb.priority == curr.priority && ltb pcb.process_id curr.process_id

unfoldable pub add_pcb_to_pcbs_queue : ProcessControlBlock → PcbsQueue → PcbsQueue
unfolding goes_before
add_pcb_to_pcbs_queue pcb [] = pcb ∷ []
add_pcb_to_pcbs_queue pcb (curr ∷ rest) =
    if goes_before pcb curr then pcb ∷ curr ∷ rest else curr ∷ add_pcb_to_pcbs_queue pcb rest

unfoldable pub pop_front_pcb_from_pcbs_queue : PcbsQueue → Option (ProcessControlBlock × PcbsQueue)
pop_front_pcb_from_pcbs_queue [] = none
pop_front_pcb_from_pcbs_queue (pcb ∷ rest) = some (pcb, rest)

pop_front_pcb_from_pcbs_list : PcbsQueue → Option (ProcessControlBlock × PcbsQueue)
pop_front_pcb_from_pcbs_list = pop_front_pcb_from_pcbs_queue

unfoldable pub append_pcb_to_pcbs_list : ProcessControlBlock → PcbsQueue → PcbsQueue
append_pcb_to_pcbs_list pcb [] = pcb ∷ []
append_pcb_to_pcbs_list pcb (curr ∷ rest) = curr ∷ append_pcb_to_pcbs_list pcb rest

-- A swap-in takes at most one round for each process memory and one more.
unfoldable pub load_pcb : ProcessControlBlock → ℕ → Memory → Outcome (ProcessControlBlock × Memory)
load_pcb pcb time m = do
  p ← deref (get_elem? m.processes pcb.process_memory)
  m' ← elim (is_process_memory_in_disk p) [
    | true ↦ swap_in_process_memory (suc (length m.processes)) pcb.process_memory time m
    | false ↦ ok m
  ]
  ok (record pcb { process_state = running; burst_time = 0 }, m')

unfoldable pub run_pcb : ProcessControlBlock → ProcessControlBlock
run_pcb pcb = record pcb { burst_time = pcb.burst_time + 1; cpu_time = pcb.cpu_time + 1 }

preempt_pcb : ProcessControlBlock → ProcessControlBlock
preempt_pcb pcb = record pcb { process_state = ready }

unfoldable pub ready_and_decrease_priority_pcb : ProcessControlBlock → ProcessControlBlock
ready_and_decrease_priority_pcb pcb = record pcb {
  priority = if ltb min_priority (pcb.priority + 1) then min_priority else pcb.priority + 1;
  process_state = ready;
  burst_time = 0;
}

unfoldable pub terminate_pcb : ProcessControlBlock → Memory → Outcome (ProcessControlBlock × Memory)
terminate_pcb pcb m = do
  p ← deref (get_elem? m.processes pcb.process_memory)
  m' ← elim (is_process_memory_in_disk p) [
    | true ↦ ok m
    | false ↦ swap_out_process_memory_by_process_memory pcb.process_memory m
  ]
  ok (record pcb { process_state = terminated }, m')

unfoldable pub is_pcb_finished : ProcessControlBlock → Bool
is_pcb_finished pcb = leb pcb.job_time pcb.cpu_time

-- A line of the output.
pub record SimulationStatus : Type 0 where
  pub time : ℕ
  pub process_id : ℕ
  pub numprocesses : ℕ
  pub numholes : ℕ
  pub memusage : ℕ

-- The percentage, rounded up.
unfoldable pub memory_usage_proportion : ℕ → ℕ → ℕ
memory_usage_proportion used memsize =
    100 * used / memsize + (if 100 * used % memsize == 0 then 0 else 1)

-- The line that is printed.
unfoldable pub simulation_status : ℕ → ProcessControlBlock → Memory → ℕ → SimulationStatus
unfolding memory_usage_proportion
simulation_status time pcb m memsize = record {
  time = time;
  process_id = pcb.process_id;
  numprocesses = get_process_memories_list_not_in_disk_count m.processes;
  numholes = get_free_memory_segments_list_count m.free;
  memusage =
      memory_usage_proportion (get_process_memories_list_not_in_disk_size m.processes) memsize;
}

-- The percentage is a division by `memsize`, which is undefined at 0.
unfoldable pub print_simulation_status :
    ℕ → ProcessControlBlock → Memory → ℕ → Outcome SimulationStatus
unfolding simulation_status
print_simulation_status time pcb m memsize =
    if memsize == 0 then undefined else ok (simulation_status time pcb m memsize)

pub record Admission : Type 0 where
  pub scheduled : List ScheduledProcess
  pub ready_queue : PcbsQueue
  pub processes : List ProcessMemory

-- The scheduled processes are those from the index `spi` on, up to the null pointer.
unfoldable pub check_scheduled_processes :
    List ScheduledProcess → ℕ → PcbsQueue → List ProcessMemory → Admission
check_scheduled_processes [] time ready_queue procs = record {
  scheduled = [];
  ready_queue = ready_queue;
  processes = procs;
}
check_scheduled_processes (sp ∷ rest) time ready_queue procs =
    let (pcb, procs') = new_process_control_block_by_scheduled_process sp procs in
    let started =
      check_scheduled_processes rest time (append_pcb_to_pcbs_list pcb ready_queue) procs' in
    if leb sp.start_time time
    then started
    else record { scheduled = sp ∷ rest; ready_queue = ready_queue; processes = procs }

unfoldable pub get_quantum_by_pcb : ProcessControlBlock → ℕ
get_quantum_by_pcb pcb =
    if pcb.priority == 1
    then q1_quantum
    else if pcb.priority == 2
    then q2_quantum
    else if pcb.priority == 3
    then q3_quantum
    else q3_quantum

unfoldable pub is_quantum_exhausted_by_pcb : ProcessControlBlock → Bool
unfolding get_quantum_by_pcb
is_quantum_exhausted_by_pcb pcb = leb (get_quantum_by_pcb pcb) pcb.burst_time
