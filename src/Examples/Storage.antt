-- ===== src/Examples/Storage.antt =====
-- Instances of the theorems about project1/memory-management.c, at a memory of 10 addresses.
use comp.Base.{ℕ, ◌+◌, ◌≡◌, refl, [], ◌∷◌, arith}
use comp.Segments.{occupy_first_fit, add_new_free_memory_segment_to_free_memory_segments_list}
use comp.Segments.Coverage.{holds, cover, below}
use comp.Segments.Tidy.{IsTidy, add_new_free_memory_segment_lem}
use comp.Segments.Placement.{Fits, occupy_first_fit-Fits}
use comp.Processes.{ProcessMemory, in_disk, in_ram, get_process_memories_list_not_in_disk_count}
use comp.Swap.{Memory, ok, swap_in_process_memory, swap_out_process_memory}
use comp.Swap.Invariant.{IsConsistent}
use comp.Swap.SwapOut.{SwapOutResult, swap_out_process_memory_lem}
use comp.Swap.SwapIn.{SwapsIn, swap_in_process_memory_lem}

abbrev pub loaded : ProcessMemory
loaded = record { start_address = in_ram 10; size = 4; swap_in_time = 1; process_id = 1 }

abbrev pub stored : ProcessMemory
stored = record { start_address = in_disk; size = 8; swap_in_time = 0; process_id = 2 }

abbrev pub memory : Memory
memory = record {
  processes = loaded ∷ stored ∷ [];
  free = record { start_address = 6; size = 6 } ∷ [];
}

pub memory-IsConsistent : IsConsistent 10 memory
unfolding holds below
memory-IsConsistent = record { tidy = omega arith; placed = omega arith; tiled = λ x. ground arith }

add_new_free_memory_segment_lem_example :
    IsTidy 11 (add_new_free_memory_segment_to_free_memory_segments_list 10 4 memory.free)
    × ((x : ℕ)
        → cover (add_new_free_memory_segment_to_free_memory_segments_list 10 4 memory.free) x
          ≡ holds 10 4 x + cover memory.free x)
unfolding holds
add_new_free_memory_segment_lem_example =
    add_new_free_memory_segment_lem 10 10 4 memory.free (omega arith) (omega arith) (omega arith)
      memory-IsConsistent.tidy (λ x. ground arith)

occupy_first_fit-Fits_example : Fits 11 5 memory.free (occupy_first_fit 5 memory.free)
occupy_first_fit-Fits_example =
    occupy_first_fit-Fits 11 5 memory.free (omega arith) memory-IsConsistent.tidy

swap_out_process_memory_lem_example : SwapOutResult 10 memory (swap_out_process_memory memory)
swap_out_process_memory_lem_example = swap_out_process_memory_lem 10 memory memory-IsConsistent

swap_in_process_memory_lem_example :
    (m' : Memory) × (swap_in_process_memory 2 1 5 memory ≡ ok m') × SwapsIn 10 1 5 stored memory m'
unfolding get_process_memories_list_not_in_disk_count
swap_in_process_memory_lem_example =
    swap_in_process_memory_lem 10 1 5 2 memory stored memory-IsConsistent refl refl (omega arith)
      (omega arith)
