-- ===== src/Segments/Coverage.antt =====
-- Which addresses the free list of memory-management.c holds, and how often.
use comp.Base.{
  ℕ, ◌+◌, ◌-◌, ◌≤◌, ◌<◌, ◌≡◌, refl, List, [], ◌∷◌, ◌&&◌, leb, ltb, if◌then◌else◌, arith,
}
use comp.Segments.{FreeMemorySegment, consolidate_from, insert_segment}

-- 1 at each address below the bound, 0 elsewhere.
unfoldable pub below : ℕ → ℕ → ℕ
below bound x = if ltb x bound then 1 else 0

-- 1 if the block of `size` addresses under `start` holds the address `x`, else 0.
unfoldable pub holds : ℕ → ℕ → ℕ → ℕ
holds start size x = if leb (start - size) x && ltb x start then 1 else 0

-- How many segments of the list hold `x`.
abbrev pub cover : List FreeMemorySegment → ℕ → ℕ
cover [] x = 0
cover (s ∷ rest) x = holds s.start_address s.size x + cover rest x

-- Each segment lies under the one before it, has a size, and lies in memory.
abbrev pub IsDescending : ℕ → List FreeMemorySegment → Type 0
IsDescending bound [] = Unit
IsDescending bound (s ∷ rest) =
    (s.start_address ≤ bound)
    × (0 < s.size)
    × (s.size ≤ s.start_address)
    × IsDescending (s.start_address - s.size) rest

holds-add :
    (start n m x : ℕ)
    → n + m ≤ start
    → holds start (n + m) x ≡ holds start n x + holds (start - n) m x
unfolding holds
holds-add start n m x h = ground arith

pub cover-insert_segment :
    (s : FreeMemorySegment) (l : List FreeMemorySegment) (x : ℕ)
    → cover (insert_segment s l) x ≡ holds s.start_address s.size x + cover l x
unfolding insert_segment
cover-insert_segment s [] x = refl
cover-insert_segment s (c ∷ rest) x = ground (arith, cover-insert_segment s rest x)

pub cover-consolidate_from :
    (bound : ℕ) (c : FreeMemorySegment) (l : List FreeMemorySegment) (x : ℕ)
    → IsDescending bound (c ∷ l)
    → cover (consolidate_from c l) x ≡ cover (c ∷ l) x
unfolding consolidate_from
cover-consolidate_from bound c [] x h = refl
cover-consolidate_from bound c (n ∷ l) x h = ground (
  arith,
  cover-consolidate_from bound (record c { size = c.size + n.size }) l x,
  cover-consolidate_from (c.start_address - c.size) n l x,
  holds-add c.start_address c.size n.size x,
)

pub holds_top : (start size : ℕ) → 0 < size → size ≤ start → holds start size (start - 1) ≡ 1
unfolding holds
holds_top start size h k = ground arith

holds-le-one : (start size x : ℕ) → holds start size x ≤ 1
unfolding holds
holds-le-one start size x = ground arith

-- An address that the block does not hold is not between its end and its start.
pub not-holds : (start size x : ℕ) → holds start size x ≡ 0 → x < start → x < start - size
unfolding holds
not-holds start size x h k = ground arith
