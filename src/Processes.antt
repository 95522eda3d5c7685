-- ===== src/Processes.antt =====
-- project1/memory-management.c, the list of process memories. A pointer to a process memory is the
-- position of the process memory in the list: the list only grows while pointers are held.
pub mod Updates
use comp.Base.{
  ℕ, ◌+◌, ◌-◌, List, [], ◌∷◌, Option, none, some, Bool, true, false, ◌==◌, if◌then◌else◌,
}
use comp.Segments.{FreeMemorySegment, add_new_free_memory_segment_to_free_memory_segments_list}

-- IN_DISK is -1 in the source, which is no address of a block in memory.
pub data Address : Type 0 where
  in_disk : Address
  in_ram : ℕ → Address

pub record ProcessMemory : Type 0 where
  pub start_address : Address
  pub size : ℕ
  pub swap_in_time : ℕ
  pub process_id : ℕ

unfoldable pub new_process_memories_list : List ProcessMemory
new_process_memories_list = []

unfoldable pub new_process_memory : ℕ → ℕ → ProcessMemory
new_process_memory size process_id = record {
  start_address = in_disk;
  size = size;
  swap_in_time = 0;
  process_id = process_id;
}

unfoldable pub add_process_memory_to_process_memories_list :
    ProcessMemory → List ProcessMemory → List ProcessMemory
add_process_memory_to_process_memories_list p [] = p ∷ []
add_process_memory_to_process_memories_list p (q ∷ rest) =
    q ∷ add_process_memory_to_process_memories_list p rest

unfoldable pub add_new_process_memory_to_process_memories_list :
    ℕ → ℕ → List ProcessMemory → List ProcessMemory
unfolding add_process_memory_to_process_memories_list new_process_memory
add_new_process_memory_to_process_memories_list size process_id =
    add_process_memory_to_process_memories_list (new_process_memory size process_id)

abbrev pub is_process_memory_in_disk : ProcessMemory → Bool
is_process_memory_in_disk p = elim p.start_address [ in_disk ↦ true | in_ram a ↦ false ]

-- The block of a process memory goes back to the free list if it is in memory.
unfoldable pub release_block : ProcessMemory → List FreeMemorySegment → List FreeMemorySegment
release_block p free = elim p.start_address [
  | in_disk ↦ free
  | in_ram a ↦ add_new_free_memory_segment_to_free_memory_segments_list a p.size free
]

-- The first process memory with the id leaves the list, and its block goes back to the free list.
-- The flag is the source's result, 1 if there was one.
unfoldable pub remove_process_memory_by_process_id :
    ℕ
    → List ProcessMemory
    → List FreeMemorySegment
    → Bool × List ProcessMemory × List FreeMemorySegment
unfolding release_block
remove_process_memory_by_process_id process_id [] free = (false, [], free)
remove_process_memory_by_process_id process_id (curr ∷ rest) free =
    let (result, rest', free') = remove_process_memory_by_process_id process_id rest free in
    if curr.process_id == process_id
    then (true, rest, release_block curr free)
    else (result, curr ∷ rest', free')

abbrev further : Option ℕ → Option ℕ
further none = none
further (some i) = some (1 + i)

unfoldable pub get_process_memory_by_process_id : ℕ → List ProcessMemory → Option ℕ
get_process_memory_by_process_id process_id [] = none
get_process_memory_by_process_id process_id (p ∷ rest) =
    if p.process_id == process_id
    then some 0
    else further (get_process_memory_by_process_id process_id rest)

unfoldable pub get_process_memories_list_not_in_disk_count : List ProcessMemory → ℕ
get_process_memories_list_not_in_disk_count [] = 0
get_process_memories_list_not_in_disk_count (p ∷ rest) =
    (if is_process_memory_in_disk p then 0 else 1)
    + get_process_memories_list_not_in_disk_count rest

unfoldable pub get_process_memories_list_not_in_disk_size : List ProcessMemory → ℕ
get_process_memories_list_not_in_disk_size [] = 0
get_process_memories_list_not_in_disk_size (p ∷ rest) =
    (if is_process_memory_in_disk p then 0 else p.size)
    + get_process_memories_list_not_in_disk_size rest
