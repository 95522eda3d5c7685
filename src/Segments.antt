-- ===== src/Segments.antt =====
-- project1/memory-management.c, the list of free memory segments.
pub mod Coverage
pub mod Tidy
pub mod Placement
use comp.Base.{
  ℕ, ◌+◌, ◌-◌, List, [], ◌∷◌, Option, none, some, true, false, leb, ◌==◌, if◌then◌else◌,
}

-- A segment reaches down from its start address: it holds the addresses
-- `start_address - size`, …, `start_address - 1`.
pub record FreeMemorySegment : Type 0 where
  pub start_address : ℕ
  pub size : ℕ

unfoldable pub new_free_memory_segments_list : ℕ → List FreeMemorySegment
new_free_memory_segments_list size = record { start_address = size; size = size } ∷ []

get_free_memory_segment_end_address : FreeMemorySegment → ℕ
get_free_memory_segment_end_address s = s.start_address - s.size

-- The loop of `consolidate_free_memory_segments_list`, at the current segment and those behind it.
pub consolidate_from : FreeMemorySegment → List FreeMemorySegment → List FreeMemorySegment
unfolding get_free_memory_segment_end_address
consolidate_from curr [] = curr ∷ []
consolidate_from curr (next ∷ rest) =
    elim (get_free_memory_segment_end_address curr == next.start_address) [
      | true ↦ consolidate_from (record curr { size = curr.size + next.size }) rest
      | false ↦ curr ∷ consolidate_from next rest
    ]

consolidate_free_memory_segments_list : List FreeMemorySegment → List FreeMemorySegment
unfolding consolidate_from
consolidate_free_memory_segments_list [] = []
consolidate_free_memory_segments_list (s ∷ rest) = consolidate_from s rest

-- The search for the sorted position, highest start address first.
pub insert_segment : FreeMemorySegment → List FreeMemorySegment → List FreeMemorySegment
insert_segment s [] = s ∷ []
insert_segment s (curr ∷ rest) =
    if leb curr.start_address s.start_address then s ∷ curr ∷ rest else curr ∷ insert_segment s rest

unfoldable pub add_new_free_memory_segment_to_free_memory_segments_list :
    ℕ → ℕ → List FreeMemorySegment → List FreeMemorySegment
unfolding consolidate_free_memory_segments_list insert_segment
add_new_free_memory_segment_to_free_memory_segments_list start_address size segments =
    consolidate_free_memory_segments_list
      (insert_segment (record { start_address = start_address; size = size }) segments)

unfoldable pub get_free_memory_segments_list_count : List FreeMemorySegment → ℕ
get_free_memory_segments_list_count [] = 0
get_free_memory_segments_list_count (s ∷ rest) = 1 + get_free_memory_segments_list_count rest

-- The segment that `swap_in_process_memory` occupies, less the `size` addresses at its top.
-- It leaves the list when nothing of it is left.
shrink_segment : ℕ → FreeMemorySegment → List FreeMemorySegment → List FreeMemorySegment
shrink_segment size curr rest =
    if curr.size - size == 0
    then rest
    else record { start_address = curr.start_address - size; size = curr.size - size } ∷ rest

abbrev keep_segment :
    FreeMemorySegment → Option (ℕ × List FreeMemorySegment) → Option (ℕ × List FreeMemorySegment)
keep_segment curr none = none
keep_segment curr (some (a, rest)) = some (a, curr ∷ rest)

-- The inner loop of `swap_in_process_memory`: the first segment that is large enough gives the
-- start address; `none` when no segment fits.
unfoldable pub occupy_first_fit : ℕ → List FreeMemorySegment → Option (ℕ × List FreeMemorySegment)
unfolding shrink_segment
occupy_first_fit size [] = none
occupy_first_fit size (curr ∷ rest) =
    if leb size curr.size
    then some (curr.start_address, shrink_segment size curr rest)
    else keep_segment curr (occupy_first_fit size rest)
