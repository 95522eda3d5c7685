-- ===== src/Swap/Invariant.antt =====
-- What holds of memory between two calls of memory-management.c: the free segments and the process
-- memories in memory share out the addresses below `memsize`.
use comp.Base.{ℕ, suc, ◌+◌, ◌-◌, ◌≤◌, ◌<◌, ◌≡◌, some, List, get_elem?, All, arith}
use comp.Segments.{FreeMemorySegment, new_free_memory_segments_list}
use comp.Segments.Coverage.{below, holds, cover, holds_top}
use comp.Segments.Tidy.{
  IsTidy, add_new_free_memory_segment-IsTidy, cover-add_new_free_memory_segment,
}
use comp.Segments.Placement.{Placed, below-ge, below-le-one}
use comp.Processes.{new_process_memories_list, ProcessMemory, in_disk, in_ram}
use comp.Processes.Updates.{
  resident, IsPlaced, resident-set, occupies-le-resident, All-set, All-get_elem?,
}
use comp.Swap.{Memory, release, occupy}

pub record IsConsistent (memsize : ℕ) (m : Memory) : Type 0 where
  pub tidy : IsTidy (suc memsize) m.free
  pub placed : All IsPlaced m.processes
  -- Each address of memory is free once or held by one process memory, and no other address is.
  pub tiled : (x : ℕ) → cover m.free x + resident m.processes x ≡ below memsize x

module _ (memsize : ℕ) (m : Memory) (v : IsConsistent memsize m) (ptr : ℕ) (p : ProcessMemory)
    (e : get_elem? m.processes ptr ≡ some p) where
  module _ (start : ℕ) (k : p.start_address ≡ in_ram start) where
    apart : (x : ℕ) → holds start p.size x + cover m.free x ≤ 1
    apart x =
        ground
          (arith, v.tiled x, occupies-le-resident m.processes ptr p x e, below-le-one memsize x)

    fits : (0 < p.size) × (p.size ≤ start)
    fits = ground (arith, All-get_elem? IsPlaced m.processes ptr v.placed e)

    start_in_memory : start ≤ memsize
    start_in_memory = ground (
      arith,
      fits,
      v.tiled (start - 1),
      occupies-le-resident m.processes ptr p (start - 1) e,
      holds_top start p.size,
      below-ge memsize (start - 1),
    )

    -- Releasing a block in memory keeps the memory consistent.
    pub release-IsConsistent : IsConsistent memsize (release ptr p start m)
    unfolding release
    release-IsConsistent = record {
      tidy =
          add_new_free_memory_segment-IsTidy memsize start p.size m.free start_in_memory fits.0
            fits.1 v.tidy apart;
      placed = All-set IsPlaced m.processes ptr _ v.placed (fits.0, tt);
      tiled = λ x. ground (
        arith,
        v.tiled x,
        cover-add_new_free_memory_segment memsize start p.size m.free start_in_memory fits.0 fits.1
            v.tidy apart x,
        resident-set m.processes ptr p (record p { start_address = in_disk; swap_in_time = 0 }) x e,
      );
    }

  -- Giving a process memory in the disk a free block keeps the memory consistent.
  pub occupy-IsConsistent :
      (time start : ℕ) (free' : List FreeMemorySegment)
      → p.start_address ≡ in_disk
      → Placed (suc memsize) p.size start m.free free'
      → IsConsistent memsize (occupy ptr p time start free' m)
  unfolding occupy
  occupy-IsConsistent time start free' k h = record {
    tidy = h.tidy;
    placed =
        All-set IsPlaced m.processes ptr _ v.placed
          ((All-get_elem? IsPlaced m.processes ptr v.placed e).0, h.low);
    tiled = λ x. ground (
      arith,
      v.tiled x,
      h.taken x,
      resident-set m.processes ptr p
          (record p { start_address = in_ram start; swap_in_time = time }) x e,
    );
  }

-- The memory before the first process is consistent: all of it is free.
pub new_memory-IsConsistent :
    (memsize : ℕ)
    → 0 < memsize
    → IsConsistent memsize (record {
      processes = new_process_memories_list;
      free = new_free_memory_segments_list memsize;
    })
unfolding new_process_memories_list new_free_memory_segments_list holds below
new_memory-IsConsistent memsize pos = record {
  tidy = (omega arith, pos, omega arith, tt);
  placed = tt;
  tiled = λ x. ground arith;
}
