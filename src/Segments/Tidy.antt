-- ===== src/Segments/Tidy.antt =====
-- The free list of memory-management.c stays sorted and consolidated.
use comp.Base.{ℕ, suc, ◌+◌, ◌-◌, ◌≤◌, ◌<◌, ◌≡◌, refl, ◌∙◌, List, [], ◌∷◌, arith}
use comp.Segments.{
  FreeMemorySegment, get_free_memory_segment_end_address, consolidate_from,
  consolidate_free_memory_segments_list, insert_segment,
  add_new_free_memory_segment_to_free_memory_segments_list,
}
use comp.Segments.Coverage.{
  holds, cover, IsDescending, cover-insert_segment, cover-consolidate_from, holds_top, not-holds,
}

-- Each segment ends above the start of the next one: they are sorted, apart, and consolidated.
-- The bound is not reached.
abbrev pub IsTidy : ℕ → List FreeMemorySegment → Type 0
IsTidy bound [] = Unit
IsTidy bound (s ∷ rest) =
    (s.start_address < bound)
    × (0 < s.size)
    × (s.size ≤ s.start_address)
    × IsTidy (s.start_address - s.size) rest

IsTidy-IsDescending :
    (bound top : ℕ) (l : List FreeMemorySegment)
    → IsTidy top l
    → top ≤ suc bound
    → IsDescending bound l
IsTidy-IsDescending bound top [] h k = tt
IsTidy-IsDescending bound top (s ∷ rest) h k = (
  omega arith,
  h.1,
  h.2,
  IsTidy-IsDescending (s.start_address - s.size) (s.start_address - s.size) rest h.3 (omega arith),
)

consolidate_from-IsTidy :
    (bound top : ℕ) (c : FreeMemorySegment) (l : List FreeMemorySegment)
    → IsDescending bound (c ∷ l)
    → bound < top
    → IsTidy top (consolidate_from c l)
unfolding consolidate_from get_free_memory_segment_end_address
consolidate_from-IsTidy bound top c [] h k = omega arith
consolidate_from-IsTidy bound top c (n ∷ l) h k = ground (
  arith,
  consolidate_from-IsTidy bound top (record c { size = c.size + n.size }) l,
  consolidate_from-IsTidy n.start_address (c.start_address - c.size) n l,
)

abbrev IsApart : FreeMemorySegment → List FreeMemorySegment → Type 0
IsApart s l = (x : ℕ) → holds s.start_address s.size x + cover l x ≤ 1

module _ (s : FreeMemorySegment) (p : 0 < s.size) (f : s.size ≤ s.start_address) where
  IsApart-tail :
      (c : FreeMemorySegment) (l : List FreeMemorySegment) → IsApart s (c ∷ l) → IsApart s l
  IsApart-tail c l apart x = omega (arith, apart x)

  insert_segment-IsDescending :
      (bound : ℕ) (l : List FreeMemorySegment)
      → s.start_address ≤ bound
      → IsDescending bound l
      → IsApart s l
      → IsDescending bound (insert_segment s l)
  unfolding insert_segment
  insert_segment-IsDescending bound [] b h apart = (b, p, f, tt)
  insert_segment-IsDescending bound (c ∷ rest) b h apart = ground (
    arith,
    holds_top c.start_address c.size,
    holds_top s.start_address s.size,
    apart (c.start_address - 1),
    apart (s.start_address - 1),
    not-holds s.start_address s.size (c.start_address - 1),
    not-holds c.start_address c.size (s.start_address - 1),
    λ (b' : s.start_address ≤ c.start_address - c.size).
        insert_segment-IsDescending (c.start_address - c.size) rest b' h.3
          (IsApart-tail c rest apart),
  )

module _ (memsize start size : ℕ) (l : List FreeMemorySegment) (b : start ≤ memsize) (p : 0 < size)
    (f : size ≤ start) (tidy : IsTidy (suc memsize) l)
    (apart : IsApart (record { start_address = start; size = size }) l) where
  abbrev new_segment : FreeMemorySegment
  new_segment = record { start_address = start; size = size }

  inserted : IsDescending memsize (insert_segment new_segment l)
  inserted =
      insert_segment-IsDescending new_segment p f memsize l b
        (IsTidy-IsDescending memsize (suc memsize) l tidy (omega arith)) apart

  consolidated :
      (r : List FreeMemorySegment)
      → IsDescending memsize r
      → IsTidy (suc memsize) (consolidate_free_memory_segments_list r)
        × ((x : ℕ) → cover (consolidate_free_memory_segments_list r) x ≡ cover r x)
  unfolding consolidate_free_memory_segments_list
  consolidated [] h = (tt, λ x. refl)
  consolidated (c ∷ r) h = (
    consolidate_from-IsTidy memsize (suc memsize) c r h (omega arith),
    λ x. cover-consolidate_from memsize c r x h,
  )

  -- Adding a block that is apart from the free ones keeps the list sorted, apart and consolidated.
  pub add_new_free_memory_segment-IsTidy :
      IsTidy (suc memsize) (add_new_free_memory_segment_to_free_memory_segments_list start size l)
  unfolding add_new_free_memory_segment_to_free_memory_segments_list
  add_new_free_memory_segment-IsTidy = (consolidated _ inserted).0

  pub cover-add_new_free_memory_segment :
      (x : ℕ)
      → cover (add_new_free_memory_segment_to_free_memory_segments_list start size l) x
        ≡ holds start size x + cover l x
  unfolding add_new_free_memory_segment_to_free_memory_segments_list
  cover-add_new_free_memory_segment x =
      (consolidated _ inserted).1 x ∙ cover-insert_segment new_segment l x

-- Giving a block back, apart from the free ones, to a sorted and consolidated free list: the list is
-- sorted and consolidated again, and it holds the addresses of the block besides those it held.
pub add_new_free_memory_segment_lem :
    (memsize start size : ℕ) (l : List FreeMemorySegment)
    → start ≤ memsize
    → 0 < size
    → size ≤ start
    → IsTidy (suc memsize) l
    → ((x : ℕ) → holds start size x + cover l x ≤ 1)
    → IsTidy (suc memsize) (add_new_free_memory_segment_to_free_memory_segments_list start size l)
      × ((x : ℕ)
          → cover (add_new_free_memory_segment_to_free_memory_segments_list start size l) x
            ≡ holds start size x + cover l x)
add_new_free_memory_segment_lem memsize start size l b p f tidy apart = (
  add_new_free_memory_segment-IsTidy memsize start size l b p f tidy apart,
  cover-add_new_free_memory_segment memsize start size l b p f tidy apart,
)
