-- ===== src/Swap/Victim.antt =====
-- The choice that `swap_out_process_memory` of memory-management.c makes.
use comp.Base.{
  ℕ, suc, ◌+◌, ◌≤◌, ◌≡◌, refl, ap, ◌∙◌, inl, inr, List, [], ◌∷◌, Option, none, some, true, false,
  get_elem?, All, arith, Bool-cases,
}
use comp.Processes.{
  ProcessMemory, is_process_memory_in_disk, get_process_memories_list_not_in_disk_count,
}
use comp.Swap.{replaces, best_from, swap_out_candidate}

-- `p` is in the disk, or smaller than `best`, or as large and swapped in no earlier.
abbrev pub IsBeaten : ProcessMemory → ProcessMemory → Type 0
IsBeaten best p =
    is_process_memory_in_disk p ≡ false
    → (p.size ≤ best.size) × (p.size ≡ best.size → best.swap_in_time ≤ p.swap_in_time)

-- `best` stands at position `i` of the list `all`, is in memory, and beats the list `ps`.
pub record IsVictim (all ps : List ProcessMemory) (i : ℕ) (best : ProcessMemory) : Type 0 where
  pub found : get_elem? all i ≡ some best
  pub in_memory : is_process_memory_in_disk best ≡ false
  beats : All (IsBeaten best) ps

abbrev StandsAt : List ProcessMemory → ℕ → List ProcessMemory → Type 0
StandsAt all j ps = (k : ℕ) → get_elem? all (j + k) ≡ get_elem? ps k

module _ (all : List ProcessMemory) where
  StandsAt-head :
      (j : ℕ) (p : ProcessMemory) (ps : List ProcessMemory)
      → StandsAt all j (p ∷ ps)
      → get_elem? all j ≡ some p
  StandsAt-head j p ps s = ap (get_elem? all) (omega arith) ∙ s 0

  StandsAt-tail :
      (j : ℕ) (p : ProcessMemory) (ps : List ProcessMemory)
      → StandsAt all j (p ∷ ps)
      → StandsAt all (suc j) ps
  StandsAt-tail j p ps s k = ap (get_elem? all) (omega arith) ∙ s (suc k)

  IsBeaten-trans :
      (a b c : ProcessMemory)
      → is_process_memory_in_disk b ≡ false
      → IsBeaten a b
      → IsBeaten b c
      → IsBeaten a c
  IsBeaten-trans a b c m h k = λ d. ground (arith, h m, k d)

  -- The second loop: from a first choice in memory it comes to a best one.
  abbrev IsBest : ProcessMemory → List ProcessMemory → ℕ × ProcessMemory → Type 0
  IsBest best ps r = IsVictim all ps r.0 r.1 × IsBeaten r.1 best

  taken : (best p : ProcessMemory) → replaces p best ≡ true → IsBeaten p best
  unfolding replaces
  taken best p e = λ d. ground arith

  taken_in_memory :
      (best p : ProcessMemory) → replaces p best ≡ true → is_process_memory_in_disk p ≡ false
  unfolding replaces
  taken_in_memory best p e = ground arith

  left : (best p : ProcessMemory) → replaces p best ≡ false → IsBeaten best p
  unfolding replaces
  left best p e = λ d. ground arith

  best_from-IsBest :
      (i : ℕ) (best : ProcessMemory) (j : ℕ) (ps : List ProcessMemory)
      → get_elem? all i ≡ some best
      → is_process_memory_in_disk best ≡ false
      → StandsAt all j ps
      → IsBest best ps (best_from i best j ps)
  unfolding best_from
  best_from-IsBest i best j [] e m s =
      (record { found = e; in_memory = m; beats = tt }, λ d. (omega arith, λ q. omega arith))
  best_from-IsBest i best j (p ∷ ps) e m s = elim (Bool-cases (replaces p best)) [
    | inl chosen ↦
        let (v, b) =
          best_from-IsBest j p (suc j) ps (StandsAt-head j p ps s) (taken_in_memory best p chosen)
            (StandsAt-tail j p ps s) in
        rw (chosen, best_from)
          (
            record { found = v.found; in_memory = v.in_memory; beats = (b, v.beats) },
            IsBeaten-trans (best_from j p (suc j) ps).1 p best (taken_in_memory best p chosen) b
                (taken best p chosen),
          )
    | inr passed ↦
        let (v, b) = best_from-IsBest i best (suc j) ps e m (StandsAt-tail j p ps s) in
        rw (passed, best_from)
          (
            record {
              found = v.found;
              in_memory = v.in_memory;
              beats = (
                IsBeaten-trans (best_from i best (suc j) ps).1 best p m b (left best p passed),
                v.beats,
              );
            },
            b,
          )
  ]

  -- The two loops: a best process memory, or none is in memory.
  abbrev pub IsChoice : List ProcessMemory → Option (ℕ × ProcessMemory) → Type 0
  IsChoice ps none = get_process_memories_list_not_in_disk_count ps ≡ 0
  IsChoice ps (some (i, best)) = IsVictim all ps i best

  IsChoice-cons :
      (p : ProcessMemory) (ps : List ProcessMemory) (o : Option (ℕ × ProcessMemory))
      → is_process_memory_in_disk p ≡ true
      → IsChoice ps o
      → IsChoice (p ∷ ps) o
  unfolding get_process_memories_list_not_in_disk_count
  IsChoice-cons p ps none d h = ground arith
  IsChoice-cons p ps (some (i, best)) d h = record {
    found = h.found;
    in_memory = h.in_memory;
    beats = (λ e. cc, h.beats);
  }

  swap_out_candidate-IsChoice :
      (j : ℕ) (ps : List ProcessMemory) → StandsAt all j ps → IsChoice ps (swap_out_candidate j ps)
  unfolding swap_out_candidate get_process_memories_list_not_in_disk_count
  swap_out_candidate-IsChoice j [] s = refl
  swap_out_candidate-IsChoice j (p ∷ ps) s = elim (Bool-cases (is_process_memory_in_disk p)) [
    | inl d ↦
        rw (d, swap_out_candidate)
          (IsChoice-cons p ps (swap_out_candidate (suc j) ps) d
            (swap_out_candidate-IsChoice (suc j) ps (StandsAt-tail j p ps s)))
    | inr m ↦
        rw (m, swap_out_candidate) (best_from-IsBest j p j (p ∷ ps) (StandsAt-head j p ps s) m s).0
  ]

-- The two loops choose a process memory in memory that is as large as any other in memory, and no
-- later swapped in than those of its size; they choose none only if none is in memory.
pub swap_out_candidate_lem : (ps : List ProcessMemory) → IsChoice ps ps (swap_out_candidate 0 ps)
swap_out_candidate_lem ps =
    swap_out_candidate-IsChoice ps 0 ps (λ k. ap (get_elem? ps) (omega arith))
