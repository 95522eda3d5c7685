-- ===== src/Swap/Release.antt =====
-- `swap_out_process_memory_by_process_memory` of memory-management.c, as a whole.
use comp.Base.{ℕ, suc, ◌≤◌, ◌≡◌, refl, some, true, false, get_elem?, arith}
use comp.Processes.{
  Address, ProcessMemory, in_disk, in_ram, is_process_memory_in_disk,
  get_process_memories_list_not_in_disk_count,
}
use comp.Processes.Updates.{sizes, count-set, sizes-set, get_elem?-set_self}
use comp.Swap.{Memory, ok, release, swap_out_process_memory_by_process_memory}
use comp.Swap.Invariant.{IsConsistent, release-IsConsistent}

-- The process memory at `ptr` is in memory.
pub record InMemory (m : Memory) (ptr : ℕ) : Type 0 where
  pub process : ProcessMemory
  pub found : get_elem? m.processes ptr ≡ some process
  pub resides : is_process_memory_in_disk process ≡ false

-- What a swap-out of the process memory at `ptr` does.
pub record Releases (memsize ptr : ℕ) (m m' : Memory) : Type 0 where
  pub consistent : IsConsistent memsize m'
  pub same_sizes : sizes m'.processes ≡ sizes m.processes
  pub process : ProcessMemory
  pub found : get_elem? m'.processes ptr ≡ some process
  pub moved : is_process_memory_in_disk process ≡ true
  pub fewer :
      InMemory m ptr
      → suc (get_process_memories_list_not_in_disk_count m'.processes)
        ≡ get_process_memories_list_not_in_disk_count m.processes
  pub no_more :
      get_process_memories_list_not_in_disk_count m'.processes
      ≤ get_process_memories_list_not_in_disk_count m.processes

module _ (memsize ptr : ℕ) (m : Memory) (p : ProcessMemory) (v : IsConsistent memsize m)
    (e : get_elem? m.processes ptr ≡ some p) where
  by_address :
      (a : Address)
      → p.start_address ≡ a
      → (m' : Memory) × (swap_out_process_memory_by_process_memory ptr m ≡ ok m')
        × Releases memsize ptr m m'
  unfolding swap_out_process_memory_by_process_memory release
  by_address in_disk k = (
    m,
    ground arith,
    record {
      consistent = v;
      same_sizes = refl;
      process = p;
      found = e;
      moved = ground arith;
      fewer = λ r. absurd (ground (arith, r.found, r.resides));
      no_more = omega arith;
    },
  )
  by_address (in_ram a) k = (
    release ptr p a m,
    ground arith,
    record {
      consistent = release-IsConsistent memsize m v ptr p e a k;
      same_sizes = sizes-set m.processes ptr p _ e refl;
      process = record p { start_address = in_disk; swap_in_time = 0 };
      found = get_elem?-set_self m.processes ptr p _ e;
      moved = refl;
      fewer = λ r. ground (
        arith,
        count-set m.processes ptr p (record p { start_address = in_disk; swap_in_time = 0 }) e,
      );
      no_more = ground (
        arith,
        count-set m.processes ptr p (record p { start_address = in_disk; swap_in_time = 0 }) e,
      );
    },
  )

-- In a consistent memory, a swap-out of one process memory succeeds: it is in the disk
-- afterwards, one process memory fewer is in memory if it was in memory before, the sizes are the
-- same, and the memory stays consistent.
pub swap_out_process_memory_by_process_memory_lem :
    (memsize ptr : ℕ) (m : Memory) (p : ProcessMemory)
    → IsConsistent memsize m
    → get_elem? m.processes ptr ≡ some p
    → (m' : Memory) × (swap_out_process_memory_by_process_memory ptr m ≡ ok m')
      × Releases memsize ptr m m'
swap_out_process_memory_by_process_memory_lem memsize ptr m p v e =
    by_address memsize ptr m p v e p.start_address refl
