-- ===== src/Scheduler/Admitting.antt =====
-- What `check_scheduled_processes` of project1/process-scheduler.c is to do.
use comp.Base.{ℕ, ◌+◌, ◌≤◌, ◌<◌, ◌≡◌, List, [], ◌∷◌, ◌++◌, length, All}
use comp.Segments.{FreeMemorySegment}
use comp.Processes.{ProcessMemory, in_disk, get_process_memories_list_not_in_disk_count}
use comp.Swap.Invariant.{IsConsistent}
use comp.Parser.{ScheduledProcess}
use comp.Scheduler.{ProcessControlBlock, PcbsQueue, Admission, ready}
use comp.Scheduler.Loading.{AllFit}
use comp.Scheduler.Work.{work, future, last_start, pcb_keys, scheduled_keys}

-- A process has a size, and fits in memory.
abbrev pub CanLoad : ℕ → ScheduledProcess → Type 0
CanLoad memsize sp = (0 < sp.memory_size) × (sp.memory_size ≤ memsize)

-- None is left whose time has come, at the head of the list.
abbrev pub IsAhead : ℕ → List ScheduledProcess → Type 0
IsAhead time [] = Unit
IsAhead time (sp ∷ rest) = time < sp.start_time

-- A process that was just created: nothing has run, it has the highest priority, and its memory is
-- the list's.
pub record IsFresh (procs : List ProcessMemory) (pcb : ProcessControlBlock) : Type 0 where
  pub pointed : pcb.process_memory < length procs
  pub at_once : pcb.cpu_time ≡ 0
  pub top : pcb.priority ≡ 1
  pub waits : pcb.process_state ≡ ready

-- A process control block for each of the processes, the process memories of which stand from `n` on, and
-- these process memories: on the disk, of the size and the id of the process.
abbrev pub blocks_from : ℕ → List ScheduledProcess → PcbsQueue
blocks_from n [] = []
blocks_from n (sp ∷ rest) =
    record {
      process_id = sp.process_id;
      process_state = ready;
      process_memory = n;
      priority = 1;
      job_time = sp.job_time;
      burst_time = 0;
      cpu_time = 0;
    }
    ∷ blocks_from (n + 1) rest

abbrev pub memories_of : List ScheduledProcess → List ProcessMemory
memories_of [] = []
memories_of (sp ∷ rest) =
    record {
      start_address = in_disk;
      size = sp.memory_size;
      swap_in_time = 0;
      process_id = sp.process_id;
    }
    ∷ memories_of rest

-- What the arrivals at a time do: those that are admitted are the first ones, all due, and the first that is
-- left is not.
pub record Admits (memsize time : ℕ) (sps : List ScheduledProcess) (queue : PcbsQueue)
    (free : List FreeMemorySegment) (procs : List ProcessMemory) (a : Admission) : Type 0 where
  pub admitted : List ScheduledProcess
  pub divided : sps ≡ admitted ++ a.scheduled
  pub due : All (λ sp. sp.start_time ≤ time) admitted
  pub new : PcbsQueue
  pub blocks : new ≡ blocks_from (length procs) admitted
  pub queued : a.ready_queue ≡ queue ++ new
  pub consistent : IsConsistent memsize (record { processes = a.processes; free = free })
  pub all_fit : AllFit memsize a.processes
  pub fresh : All (IsFresh a.processes) new
  pub same_jobs : pcb_keys new ++ scheduled_keys a.scheduled ≡ scheduled_keys sps
  pub same_work : work new + future a.scheduled ≡ future sps
  pub no_later : last_start a.scheduled ≤ last_start sps
  pub ahead : IsAhead time a.scheduled
  pub can_load : All (CanLoad memsize) a.scheduled
  pub added : List ProcessMemory
  pub extended : a.processes ≡ procs ++ added
  pub memories : added ≡ memories_of admitted
  pub same_count :
      get_process_memories_list_not_in_disk_count a.processes
      ≡ get_process_memories_list_not_in_disk_count procs
