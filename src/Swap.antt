-- ===== src/Swap.antt =====
-- project1/memory-management.c, swapping: the process memories and the free segments together.
pub mod Invariant
pub mod Victim
pub mod SwapOut
pub mod SwapIn
pub mod Release
pub use comp.Base.{Outcome, ok, undefined, no_fuel, ◌>>=◌, deref}
use comp.Base.{
  ℕ, zero, suc, ◌+◌, List, [], ◌∷◌, Option, none, some, Bool, true, false, ◌&&◌, ◌||◌, not, ltb,
  leb, ◌==◌, get_elem?, set,
}
use comp.Segments.{
  FreeMemorySegment, occupy_first_fit, add_new_free_memory_segment_to_free_memory_segments_list,
}
use comp.Processes.{Address, in_disk, in_ram, ProcessMemory, is_process_memory_in_disk}

pub record Memory : Type 0 where
  pub processes : List ProcessMemory
  pub free : List FreeMemorySegment

-- The test of the second loop of `swap_out_process_memory`: larger, or as large and swapped in no
-- later than the best so far.
replaces : ProcessMemory → ProcessMemory → Bool
replaces p best =
    not (is_process_memory_in_disk p)
    && (ltb best.size p.size || p.size == best.size && leb p.swap_in_time best.swap_in_time)

-- The second loop, from position `j` on; the best so far stands at position `i`.
best_from : ℕ → ProcessMemory → ℕ → List ProcessMemory → ℕ × ProcessMemory
unfolding replaces
best_from i best j [] = (i, best)
best_from i best j (p ∷ rest) = elim (replaces p best) [
  | true ↦ best_from j p (suc j) rest
  | false ↦ best_from i best (suc j) rest
]

-- The first loop, and the second one from the position where the first stopped.
pub swap_out_candidate : ℕ → List ProcessMemory → Option (ℕ × ProcessMemory)
unfolding best_from
swap_out_candidate j [] = none
swap_out_candidate j (p ∷ rest) = elim (is_process_memory_in_disk p) [
  | true ↦ swap_out_candidate (suc j) rest
  | false ↦ some (best_from j p j (p ∷ rest))
]

-- The last lines of `swap_out_process_memory` and the body of
-- `swap_out_process_memory_by_process_memory`, for the process memory at position `i`.
pub release : ℕ → ProcessMemory → ℕ → Memory → Memory
release i p start m = record {
  processes = set m.processes i (record p { start_address = in_disk; swap_in_time = 0 });
  free = add_new_free_memory_segment_to_free_memory_segments_list start p.size m.free;
}

start_result : Memory → ℕ → ProcessMemory → Address → Outcome Memory
start_result m i p in_disk = undefined
start_result m i p (in_ram start) = ok (release i p start m)

pub release_in_ram : Memory → ℕ → ProcessMemory → Outcome Memory
unfolding release start_result
release_in_ram m i p = start_result m i p p.start_address

-- With no process memory in memory the source reads `swap_out_proc_mem` uninitialised.
unfoldable pub swap_out_process_memory : Memory → Outcome Memory
unfolding swap_out_candidate release_in_ram
swap_out_process_memory m = do
  (i, p) ← deref (swap_out_candidate 0 m.processes)
  release_in_ram m i p

unfoldable pub swap_out_process_memory_by_process_memory : ℕ → Memory → Outcome Memory
unfolding release
swap_out_process_memory_by_process_memory ptr m = do
  p ← deref (get_elem? m.processes ptr)
  elim p.start_address [ in_disk ↦ ok m | in_ram a ↦ ok (release ptr p a m) ]

-- The block under `start` is given to the process memory.
pub occupy : ℕ → ProcessMemory → ℕ → ℕ → List FreeMemorySegment → Memory → Memory
occupy ptr p time start free' m = record {
  processes = set m.processes ptr (record p { start_address = in_ram start; swap_in_time = time });
  free = free';
}

-- After the search for a segment: occupy the one found, or swap out and go on with `again`.
place_or_swap_out :
    (Memory → Outcome Memory)
    → ℕ
    → ProcessMemory
    → ℕ
    → Memory
    → Option (ℕ × List FreeMemorySegment)
    → Outcome Memory
unfolding occupy
place_or_swap_out again ptr p time m none = swap_out_process_memory m >>= again
place_or_swap_out again ptr p time m (some (start, free')) = ok (occupy ptr p time start free' m)

-- The `while` loop of `swap_in_process_memory`, for `fuel` rounds at most.
unfoldable pub swap_in_process_memory : ℕ → ℕ → ℕ → Memory → Outcome Memory
unfolding place_or_swap_out
swap_in_process_memory zero ptr time m = no_fuel
swap_in_process_memory (suc fuel) ptr time m = do
  p ← deref (get_elem? m.processes ptr)
  elim (is_process_memory_in_disk p) [
    | false ↦ ok m
    | true ↦
        place_or_swap_out (λ m'. swap_in_process_memory fuel ptr time m') ptr p time m
          (occupy_first_fit p.size m.free)
  ]
