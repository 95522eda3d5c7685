-- ===== src/Scheduler/Loading.antt =====
-- `load_pcb` and `terminate_pcb` of project1/process-scheduler.c on a consistent memory.
use comp.Base.{ℕ, suc, ◌≤◌, ◌<◌, ◌≡◌, refl, true, List, length, All, arith, Bool-cases, inl, inr}
use comp.Processes.{
  Address, ProcessMemory, in_disk, in_ram, is_process_memory_in_disk,
  get_process_memories_list_not_in_disk_count,
}
use comp.Processes.Updates.{sizes, get_elem?-lt, get_elem?-sizes, count-le-length, All-get_elem?}
use comp.Swap.{Memory, ok}
use comp.Swap.Invariant.{IsConsistent}
use comp.Swap.SwapIn.{swap_in_process_memory_lem}
use comp.Swap.Release.{InMemory, Releases, swap_out_process_memory_by_process_memory_lem}
use comp.Scheduler.{ProcessControlBlock, running, terminated, load_pcb, terminate_pcb}

-- Every process memory is no larger than memory.
abbrev pub AllFit : ℕ → List ProcessMemory → Type 0
AllFit memsize procs = All (λ n. n ≤ memsize) (sizes procs)

-- What `load_pcb` does to a memory.
pub record Loads (memsize ptr : ℕ) (m m' : Memory) : Type 0 where
  pub consistent : IsConsistent memsize m'
  pub same_sizes : sizes m'.processes ≡ sizes m.processes
  pub loaded : InMemory m' ptr
  pub grows :
      get_process_memories_list_not_in_disk_count m'.processes
      ≤ suc (get_process_memories_list_not_in_disk_count m.processes)

in_disk_address :
    (p : ProcessMemory) → is_process_memory_in_disk p ≡ true → p.start_address ≡ in_disk
in_disk_address p d = go p.start_address refl
  where
    go : (a : Address) → p.start_address ≡ a → p.start_address ≡ in_disk
    go in_disk e = e
    go (in_ram a) e = ground arith

module _ (memsize : ℕ) (m : Memory) (v : IsConsistent memsize m) (pcb : ProcessControlBlock)
    (h : pcb.process_memory < length m.processes) where
  -- In a consistent memory where each process memory fits, loading a process succeeds: its memory is
  -- in main memory afterwards, its state and burst time are set, and the memory is consistent.
  pub load_pcb_lem :
      (time : ℕ)
      → AllFit memsize m.processes
      → (m' : Memory) × (load_pcb pcb time m
          ≡ ok (record pcb { process_state = running; burst_time = 0 }, m'))
        × Loads memsize pcb.process_memory m m'
  unfolding load_pcb
  load_pcb_lem time fit =
      let (p, e) = get_elem?-lt m.processes pcb.process_memory h in
      elim (Bool-cases (is_process_memory_in_disk p)) [
        | inl d ↦
            let (m', q, r) =
              swap_in_process_memory_lem memsize pcb.process_memory time (suc (length m.processes))
                m p v e (in_disk_address p d)
                (All-get_elem? (λ n. n ≤ memsize) (sizes m.processes) pcb.process_memory fit
                  (get_elem?-sizes m.processes pcb.process_memory p e))
                (omega (arith, count-le-length m.processes)) in
            (
              m',
              ground arith,
              record {
                consistent = r.consistent;
                same_sizes = r.same_sizes;
                loaded = record { process = _; found = r.loaded; resides = refl };
                grows = r.grows;
              },
            )
        | inr d ↦ (
          m,
          ground arith,
          record {
            consistent = v;
            same_sizes = refl;
            loaded = record { process = p; found = e; resides = d };
            grows = omega arith;
          },
        )
      ]

  -- In a consistent memory, ending a process succeeds: its state is set, its memory is in the disk
  -- afterwards, and the memory is consistent.
  pub terminate_pcb_lem :
      (m' : Memory) × (terminate_pcb pcb m ≡ ok (record pcb { process_state = terminated }, m'))
      × Releases memsize pcb.process_memory m m'
  unfolding terminate_pcb
  terminate_pcb_lem =
      let (p, e) = get_elem?-lt m.processes pcb.process_memory h in
      let (m', q, r) =
        swap_out_process_memory_by_process_memory_lem memsize pcb.process_memory m p v e in
      elim (Bool-cases (is_process_memory_in_disk p)) [
        | inl d ↦ (
          m,
          ground arith,
          record {
            consistent = v;
            same_sizes = refl;
            process = p;
            found = e;
            moved = d;
            fewer = λ i. absurd (ground (arith, i.found, i.resides));
            no_more = omega arith;
          },
        )
        | inr d ↦ (m', ground arith, r)
      ]
