-- ===== src/Simulation/Sound.antt =====
-- What holds between two rounds of a runner of project1/process-scheduler.c.
use comp.Base.{
  [], ◌∷◌, List, length-append, ap, ◌∙◌, get_elem?, ℕ, suc, ◌+◌, ◌-◌, ◌<◌, ◌≡◌, refl, ◌++◌, Option,
  none, some, length, All, arith,
}
use comp.Processes.Updates.{sizes, length-sizes, get_elem?-some-lt, get_elem?-append}
use comp.Processes.{ProcessMemory}
use comp.Swap.{Memory, ok}
use comp.Swap.Invariant.{IsConsistent}
use comp.Swap.Release.{InMemory, Releases}
use comp.Scheduler.{
  ProcessControlBlock, PcbsQueue, running, terminated, simulation_status, print_simulation_status,
  append_pcb_to_pcbs_list,
}
use comp.Scheduler.Loading.{AllFit, Loads, load_pcb_lem, terminate_pcb_lem}
use comp.Scheduler.Work.{pcb_key, total, work, running_work, future, last_start, IsUnfinished}
use comp.Scheduler.Admitting.{CanLoad, IsFresh}
use comp.Simulation.{Simulation, start_running, stop_running}

abbrev pub running_keys : Option ProcessControlBlock → List (ℕ × ℕ)
running_keys none = []
running_keys (some pcb) = pcb_key pcb ∷ []

abbrev pub IsPointed : Memory → ProcessControlBlock → Type 0
IsPointed m pcb = pcb.process_memory < length m.processes

-- The running process is in main memory and has time left.
pub record IsActive (m : Memory) (pcb : ProcessControlBlock) : Type 0 where
  pub in_memory : InMemory m pcb.process_memory
  pub is_running : pcb.process_state ≡ running
  pub unfinished : IsUnfinished pcb

abbrev pub IsActive? : Memory → Option ProcessControlBlock → Type 0
IsActive? m none = Unit
IsActive? m (some pcb) = IsActive m pcb

-- A process that has ended got its job time, and no more.
abbrev pub IsEnded : ProcessControlBlock → Type 0
IsEnded pcb = (pcb.cpu_time ≡ total pcb.job_time) × (pcb.process_state ≡ terminated)

module _ {Q : Type 0} (flat : Q → PcbsQueue) (memsize : ℕ) where
  -- `flat` lists the processes that wait.
  pub record IsSound (s : Simulation Q) : Type 0 where
    pub consistent : IsConsistent memsize s.memory
    pub all_fit : AllFit memsize s.memory.processes
    pub pointed : All (IsPointed s.memory) (flat s.ready)
    pub unfinished : All IsUnfinished (flat s.ready)
    pub active : IsActive? s.memory s.running
    pub ended : All IsEnded s.terminated_list
    pub can_load : All (CanLoad memsize) s.scheduled_processes

  -- A bound on the rounds that are left.
  abbrev pub measure : Simulation Q → ℕ
  measure s =
      running_work s.running
      + work (flat s.ready)
      + future s.scheduled_processes
      + (suc (last_start s.scheduled_processes) - s.time)

pub IsPointed-of_sizes :
    (m m' : Memory) (pcbs : PcbsQueue)
    → sizes m'.processes ≡ sizes m.processes
    → All (IsPointed m) pcbs
    → All (IsPointed m') pcbs
IsPointed-of_sizes m m' [] e h = tt
IsPointed-of_sizes m m' (pcb ∷ rest) e h = (
  omega (arith, h.0, ap length e, length-sizes m.processes, length-sizes m'.processes),
  IsPointed-of_sizes m m' rest e h.1,
)

pub InMemory-IsPointed :
    (m : Memory) (pcb : ProcessControlBlock) → InMemory m pcb.process_memory → IsPointed m pcb
InMemory-IsPointed m pcb h = get_elem?-some-lt m.processes pcb.process_memory h.found

module _ {Q : Type 0} (memsize : ℕ) (pcb : ProcessControlBlock) (s : Simulation Q)
    (v : IsConsistent memsize s.memory) (h : IsPointed s.memory pcb) where
  printed :
      (time : ℕ) (pcb' : ProcessControlBlock) (m : Memory)
      → 0 < memsize
      → print_simulation_status time pcb' m memsize ≡ ok (simulation_status time pcb' m memsize)
  unfolding print_simulation_status
  printed time pcb' m pos = ground arith

  -- The popped process becomes the running one, its memory is loaded, and a line is printed.
  pub start_running_lem :
      0 < memsize
      → AllFit memsize s.memory.processes
      → (m : Memory) × (start_running memsize pcb s
          ≡ ok (record s {
            running = some (record pcb { process_state = running; burst_time = 0 });
            memory = m;
            output =
                s.output
                ++ simulation_status s.time
                    (record pcb { process_state = running; burst_time = 0 })
                    m
                    memsize
                  ∷ [];
          }))
        × Loads memsize pcb.process_memory s.memory m
  unfolding start_running
  start_running_lem pos fit =
      let (m, e, r) = load_pcb_lem memsize s.memory v pcb h s.time fit in
      (
        m,
        rw (e, printed s.time (record pcb { process_state = running; burst_time = 0 }) m pos) refl,
        r,
      )

  pub stop_running_lem :
      (m : Memory) × (stop_running pcb s
        ≡ ok (record s {
          running = none;
          memory = m;
          terminated_list =
              append_pcb_to_pcbs_list (record pcb { process_state = terminated }) s.terminated_list;
        }))
      × Releases memsize pcb.process_memory s.memory m
  unfolding stop_running
  stop_running_lem = let (m, e, r) = terminate_pcb_lem memsize s.memory v pcb h in (m, rw e refl, r)

-- Arrivals only add to the end of the process memories.
module _ (m : Memory) (procs added : List ProcessMemory) (e : procs ≡ m.processes ++ added) where
  abbrev extended : Memory
  extended = record m { processes = procs }

  pub IsPointed-extended :
      (pcbs : PcbsQueue) → All (IsPointed m) pcbs → All (IsPointed extended) pcbs
  IsPointed-extended [] h = tt
  IsPointed-extended (pcb ∷ rest) h = (
    omega (arith, h.0, ap length e, length-append m.processes added),
    IsPointed-extended rest h.1,
  )

  InMemory-extended : (ptr : ℕ) → InMemory m ptr → InMemory extended ptr
  InMemory-extended ptr h = record {
    process = h.process;
    found = ap (λ l. get_elem? l ptr) e ∙ get_elem?-append m.processes added ptr h.found;
    resides = h.resides;
  }

  pub IsActive?-extended : (r : Option ProcessControlBlock) → IsActive? m r → IsActive? extended r
  IsActive?-extended none h = tt
  IsActive?-extended (some pcb) h = record {
    in_memory = InMemory-extended pcb.process_memory h.in_memory;
    is_running = h.is_running;
    unfinished = h.unfinished;
  }

pub IsFresh-IsPointed :
    (m : Memory) (pcbs : PcbsQueue) → All (IsFresh m.processes) pcbs → All (IsPointed m) pcbs
IsFresh-IsPointed m [] h = tt
IsFresh-IsPointed m (pcb ∷ rest) h = (h.0.pointed, IsFresh-IsPointed m rest h.1)

pub IsFresh-IsUnfinished :
    (procs : List ProcessMemory) (pcbs : PcbsQueue)
    → All (IsFresh procs) pcbs
    → All IsUnfinished pcbs
IsFresh-IsUnfinished procs [] h = tt
IsFresh-IsUnfinished procs (pcb ∷ rest) h =
    (ground (arith, h.0.at_once), IsFresh-IsUnfinished procs rest h.1)
