-- ===== src/Segments/Placement.antt =====
-- The first-fit placement in `swap_in_process_memory` of memory-management.c.
use comp.Base.{
  ℕ, suc, ◌+◌, ◌-◌, ◌≤◌, ◌<◌, ◌≡◌, ◌≢◌, refl, inl, inr, All, Bool-cases, leb, List, [], ◌∷◌, Option,
  none, some, arith,
}
use comp.Segments.{FreeMemorySegment, shrink_segment, keep_segment, occupy_first_fit}
use comp.Segments.Coverage.{below, holds, cover}
use comp.Segments.Tidy.{IsTidy}

-- What a placement does: the block lies in memory, and its addresses leave the free list, which
-- stays tidy.
pub record Placed (memsize size start : ℕ) (l r : List FreeMemorySegment) : Type 0 where
  high : start < memsize
  pub low : size ≤ start
  pub tidy : IsTidy memsize r
  pub taken : (x : ℕ) → cover r x + holds start size x ≡ cover l x

IsTidy-mono : (a b : ℕ) (l : List FreeMemorySegment) → a ≤ b → IsTidy a l → IsTidy b l
IsTidy-mono a b [] h t = tt
IsTidy-mono a b (s ∷ l) h t = (omega arith, t.1, t.2, t.3)

holds-split :
    (start n m x : ℕ)
    → n ≤ m
    → m ≤ start
    → holds (start - n) (m - n) x + holds start n x ≡ holds start m x
unfolding holds
holds-split start n m x h k = ground arith

holds_none : (start x : ℕ) → holds start 0 x ≡ 0
unfolding holds
holds_none start x = ground arith

shrink_segment-Placed :
    (bound size : ℕ) (c : FreeMemorySegment) (rest : List FreeMemorySegment)
    → 0 < size
    → size ≤ c.size
    → IsTidy bound (c ∷ rest)
    → Placed bound size c.start_address (c ∷ rest) (shrink_segment size c rest)
unfolding shrink_segment
shrink_segment-Placed bound size c rest p h t = record {
  high = t.0;
  low = omega arith;
  tidy = ground (arith, IsTidy-mono (c.start_address - c.size) bound rest);
  taken = λ x. ground (
    arith,
    holds-split c.start_address size c.size x h t.2,
    holds_none (c.start_address - size) x,
  );
}

keep_segment-Placed :
    (bound size start : ℕ) (c : FreeMemorySegment) (l r : List FreeMemorySegment)
    → IsTidy bound (c ∷ l)
    → Placed (c.start_address - c.size) size start l r
    → Placed bound size start (c ∷ l) (c ∷ r)
keep_segment-Placed bound size start c l r t h = record {
  high = omega (arith, h.high);
  low = h.low;
  tidy = (t.0, t.1, t.2, h.tidy);
  taken = λ x. omega (arith, h.taken x);
}

-- The outcome of the search: a placement, or no segment is large enough.
abbrev pub Fits : ℕ → ℕ → List FreeMemorySegment → Option (ℕ × List FreeMemorySegment) → Type 0
Fits bound size l none = All (λ s. s.size < size) l
Fits bound size l (some (start, r)) = Placed bound size start l r

keep_segment-Fits :
    (bound size : ℕ) (c : FreeMemorySegment) (l : List FreeMemorySegment)
    (o : Option (ℕ × List FreeMemorySegment))
    → c.size < size
    → IsTidy bound (c ∷ l)
    → Fits (c.start_address - c.size) size l o
    → Fits bound size (c ∷ l) (keep_segment c o)
keep_segment-Fits bound size c l none h t fits = (h, fits)
keep_segment-Fits bound size c l (some (start, r)) h t fits =
    keep_segment-Placed bound size start c l r t fits

-- In a sorted and consolidated free list, a block of a positive size is taken from the list, which
-- stays sorted and consolidated and loses just the addresses of the block; or each segment is too
-- small for it.
pub occupy_first_fit-Fits :
    (bound size : ℕ) (l : List FreeMemorySegment)
    → 0 < size
    → IsTidy bound l
    → Fits bound size l (occupy_first_fit size l)
unfolding occupy_first_fit
occupy_first_fit-Fits bound size [] p t = tt
occupy_first_fit-Fits bound size (c ∷ rest) p t = elim (Bool-cases (leb size c.size)) [
  | inl fits ↦ rw fits (shrink_segment-Placed bound size c rest p (ground arith) t)
  | inr small ↦ rw small (
      keep_segment-Fits bound size c rest (occupy_first_fit size rest) (ground arith) t
        (occupy_first_fit-Fits (c.start_address - c.size) size rest p t.3))
]

below-lt : (bound x : ℕ) → x < bound → below bound x ≡ 1
unfolding below
below-lt bound x h = ground arith

pub below-ge : (bound x : ℕ) → 1 ≤ below bound x → x < bound
unfolding below
below-ge bound x h = ground arith

pub below-le-one : (bound x : ℕ) → below bound x ≤ 1
unfolding below
below-le-one bound x = ground arith

-- Under its bound a tidy list holds nothing at or above the bound.
cover_above :
    (bound x : ℕ) (l : List FreeMemorySegment) → IsTidy bound l → bound ≤ suc x → cover l x ≡ 0
unfolding holds
cover_above bound x [] t h = refl
cover_above bound x (s ∷ l) t h = ground (arith, cover_above (s.start_address - s.size) x l t.3)

holds_under : (start size x : ℕ) → x < start - size → holds start size x ≡ 0
unfolding holds
holds_under start size x h = ground arith

module _ (memsize : ℕ) (s : FreeMemorySegment) (l : List FreeMemorySegment)
    (t : IsTidy (suc memsize) (s ∷ l)) (full : (x : ℕ) → cover (s ∷ l) x ≡ below memsize x) where
  starts_at_top : s.start_address ≡ memsize
  starts_at_top = grind (
    arith,
    full (memsize - 1),
    below-lt memsize (memsize - 1),
    cover_above (suc s.start_address) (memsize - 1) (s ∷ l) (omega arith, t.1, t.2, t.3),
  )

  ends_at_bottom : s.size ≡ memsize
  ends_at_bottom = grind (
    arith,
    starts_at_top,
    full (s.start_address - s.size - 1),
    below-lt memsize (s.start_address - s.size - 1),
    holds_under s.start_address s.size (s.start_address - s.size - 1),
    cover_above (s.start_address - s.size) (s.start_address - s.size - 1) l t.3,
  )

-- When every address of memory is free, the list is one segment, so every block fits.
pub occupy_first_fit_full :
    (memsize size : ℕ) (l : List FreeMemorySegment)
    → 0 < size
    → size ≤ memsize
    → IsTidy (suc memsize) l
    → ((x : ℕ) → cover l x ≡ below memsize x)
    → occupy_first_fit size l ≢ none
unfolding occupy_first_fit
occupy_first_fit_full memsize size [] p h t full e = omega (arith, full 0, below-lt memsize 0)
occupy_first_fit_full memsize size (s ∷ l) p h t full e =
    ground (arith, ends_at_bottom memsize s l t full)
