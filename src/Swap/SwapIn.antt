-- ===== src/Swap/SwapIn.antt =====
-- `swap_in_process_memory` of memory-management.c, as a whole.
use native.Mathlib.Decide.{ℕ_discrete}
use mathlib.Core.Option
use comp.Base.{
  ℕ, zero, suc, ◌≤◌, ◌<◌, ◌≡◌, ◌≢◌, ◌⊎◌, inl, inr, refl, sym, ap, ◌∙◌, Option, none, some, true,
  get_elem?, set, arith, List,
}
use comp.Segments.{FreeMemorySegment, occupy_first_fit}
use comp.Segments.Placement.{Placed, Fits, occupy_first_fit-Fits, occupy_first_fit_full}
use comp.Processes.{
  ProcessMemory, in_disk, in_ram, is_process_memory_in_disk,
  get_process_memories_list_not_in_disk_count,
}
use comp.Processes.Updates.{
  sizes, count-set, sizes-set, get_elem?-set_self, get_elem?-set_ne, All-get_elem?, IsPlaced,
  resident_none,
}
use comp.Swap.{
  Memory, Outcome, ok, release, occupy, swap_out_process_memory, swap_in_process_memory,
  place_or_swap_out, ◌>>=◌,
}
use comp.Swap.Invariant.{IsConsistent, occupy-IsConsistent}
use comp.Swap.SwapOut.{SwapsOut, SwapOutResult, swap_out_process_memory_lem}

-- A process memory as it is after a swap-out.
abbrev pub to_disk : ProcessMemory → ProcessMemory
to_disk p = record p { start_address = in_disk; swap_in_time = 0 }

-- Each process memory but the one at `ptr` is as it was, or was moved to the disk.
abbrev pub OthersKept : ℕ → Memory → Memory → Type 0
OthersKept ptr m m' =
    (j : ℕ) (q : ProcessMemory)
    → j ≢ ptr
    → get_elem? m.processes j ≡ some q
    → (get_elem? m'.processes j ≡ some q) ⊎ (get_elem? m'.processes j ≡ some (to_disk q))

OthersKept-trans :
    (ptr : ℕ) (a b c : Memory) → OthersKept ptr a b → OthersKept ptr b c → OthersKept ptr a c
OthersKept-trans ptr a b c h k j q ne e = elim (h j q ne e) [
  | inl same ↦ k j q ne same
  | inr moved ↦ elim (k j (to_disk q) ne moved) [ inl e' ↦ inr e' | inr e' ↦ inr e' ]
]

-- What a swap-in of the process memory `p` at `ptr` does.
pub record SwapsIn (memsize ptr time : ℕ) (p : ProcessMemory) (m m' : Memory) : Type 0 where
  pub start : ℕ
  pub loaded :
      get_elem? m'.processes ptr
      ≡ some (record p { start_address = in_ram start; swap_in_time = time })
  pub consistent : IsConsistent memsize m'
  pub same_sizes : sizes m'.processes ≡ sizes m.processes
  pub others : OthersKept ptr m m'
  pub grows :
      get_process_memories_list_not_in_disk_count m'.processes
      ≤ suc (get_process_memories_list_not_in_disk_count m.processes)

abbrev pub SwapInResult : ℕ → ℕ → ℕ → ProcessMemory → Memory → Outcome Memory → Type 0
SwapInResult memsize ptr time p m (ok m') = SwapsIn memsize ptr time p m m'
SwapInResult memsize ptr time p m Outcome.undefined = ⊥
SwapInResult memsize ptr time p m Outcome.no_fuel = ⊥

module _ (memsize ptr time : ℕ) (p : ProcessMemory) (k : p.start_address ≡ in_disk) where
  SwapsIn-occupy :
      (m : Memory) (start : ℕ) (free' : List FreeMemorySegment)
      → IsConsistent memsize m
      → get_elem? m.processes ptr ≡ some p
      → Placed (suc memsize) p.size start m.free free'
      → SwapsIn memsize ptr time p m (occupy ptr p time start free' m)
  unfolding occupy
  SwapsIn-occupy m start free' v e h = record {
    start = start;
    loaded = get_elem?-set_self m.processes ptr p _ e;
    consistent = occupy-IsConsistent memsize m v ptr p e time start free' k h;
    same_sizes = sizes-set m.processes ptr p _ e refl;
    others = λ j q ne f. inl (get_elem?-set_ne m.processes ptr j _ (λ s. ne (sym s)) ∙ f);
    grows = ground (
      arith,
      count-set m.processes ptr p (record p { start_address = in_ram start; swap_in_time = time })
          e,
    );
  }

  module _ (m m' : Memory) (e : get_elem? m.processes ptr ≡ some p)
      (h : SwapsOut memsize m m') where
    processes_after : m'.processes ≡ set m.processes h.position (to_disk h.victim)
    unfolding release
    processes_after = ap (λ (n : Memory). n.processes) h.result

    position_ne : h.position ≢ ptr
    position_ne s = ground (arith, h.chosen.found, h.chosen.in_memory, ap (get_elem? m.processes) s)

    kept_at : get_elem? m'.processes ptr ≡ some p
    kept_at =
        ap (λ ps. get_elem? ps ptr) processes_after
        ∙ get_elem?-set_ne m.processes h.position ptr (to_disk h.victim) position_ne
        ∙ e

    OthersKept-swap_out : OthersKept ptr m m'
    OthersKept-swap_out j q ne f = elim (ℕ_discrete h.position j) [
      | yes same ↦ inr (
          ap (λ ps. get_elem? ps j) processes_after
          ∙ ap (get_elem? (set m.processes h.position (to_disk h.victim))) (sym same)
          ∙ get_elem?-set_self m.processes h.position h.victim (to_disk h.victim) h.chosen.found
          ∙ ap (Option.map to_disk) (sym h.chosen.found ∙ ap (get_elem? m.processes) same ∙ f))
      | no other ↦ inl (
          ap (λ ps. get_elem? ps j) processes_after
          ∙ get_elem?-set_ne m.processes h.position j (to_disk h.victim) other
          ∙ f)
    ]

    SwapsIn-after :
        (m'' : Memory) → SwapsIn memsize ptr time p m' m'' → SwapsIn memsize ptr time p m m''
    SwapsIn-after m'' r = record {
      start = r.start;
      loaded = r.loaded;
      consistent = r.consistent;
      same_sizes = r.same_sizes ∙ h.same_sizes;
      others = OthersKept-trans ptr m m' m'' OthersKept-swap_out r.others;
      grows = omega (arith, r.grows, h.fewer);
    }

    after_result :
        (o : Outcome Memory)
        → SwapInResult memsize ptr time p m' o
        → SwapInResult memsize ptr time p m o
    after_result (ok m'') r = SwapsIn-after m'' r
    after_result Outcome.undefined r = r
    after_result Outcome.no_fuel r = r

  -- When no segment fits, some process memory is in memory.
  none_fits :
      (m : Memory)
      → IsConsistent memsize m
      → 0 < p.size
      → p.size ≤ memsize
      → occupy_first_fit p.size m.free ≡ none
      → get_process_memories_list_not_in_disk_count m.processes ≢ 0
  none_fits m v q h e c =
      occupy_first_fit_full memsize p.size m.free q h v.tidy
        (λ x. omega (arith, v.tiled x, resident_none m.processes x c)) e

  abbrev Again : Memory → (Memory → Outcome Memory) → Type 0
  Again m again =
      (m' : Memory) → SwapsOut memsize m m' → SwapInResult memsize ptr time p m (again m')

  retried :
      (m : Memory) (o : Outcome Memory) (again : Memory → Outcome Memory)
      → get_process_memories_list_not_in_disk_count m.processes ≢ 0
      → SwapOutResult memsize m o
      → Again m again
      → SwapInResult memsize ptr time p m (o >>= again)
  retried m (ok m') again c h ih = ih m' h
  retried m Outcome.undefined again c h ih = c h
  retried m Outcome.no_fuel again c h ih = h

  place_or_swap_out_lem :
      (m : Memory) (again : Memory → Outcome Memory) (o : Option (ℕ × List FreeMemorySegment))
      → IsConsistent memsize m
      → get_elem? m.processes ptr ≡ some p
      → p.size ≤ memsize
      → occupy_first_fit p.size m.free ≡ o
      → Fits (suc memsize) p.size m.free o
      → Again m again
      → SwapInResult memsize ptr time p m (place_or_swap_out again ptr p time m o)
  unfolding place_or_swap_out
  place_or_swap_out_lem m again none v e h f fits ih =
      retried m (swap_out_process_memory m) again
        (none_fits m v (All-get_elem? IsPlaced m.processes ptr v.placed e).0 h f)
        (swap_out_process_memory_lem memsize m v) ih
  place_or_swap_out_lem m again (some (start, free')) v e h f fits ih =
      SwapsIn-occupy m start free' v e fits

  in_disk_now : is_process_memory_in_disk p ≡ true
  in_disk_now = ground arith

  swap_in_result :
      (fuel : ℕ) (m : Memory)
      → IsConsistent memsize m
      → get_elem? m.processes ptr ≡ some p
      → p.size ≤ memsize
      → get_process_memories_list_not_in_disk_count m.processes < fuel
      → SwapInResult memsize ptr time p m (swap_in_process_memory fuel ptr time m)
  unfolding swap_in_process_memory
  swap_in_result zero m v e h c = elim c [ ]
  swap_in_result (suc fuel) m v e h c =
      rw (e, swap_in_process_memory)
        (rw (in_disk_now, SwapInResult)
          (place_or_swap_out_lem m (λ m'. swap_in_process_memory fuel ptr time m')
            (occupy_first_fit p.size m.free) v e h refl
            (occupy_first_fit-Fits (suc memsize) p.size m.free
              (All-get_elem? IsPlaced m.processes ptr v.placed e).0 v.tidy)
            (λ m' s.
              after_result m m' e s (swap_in_process_memory fuel ptr time m') (
                swap_in_result fuel m' s.consistent (kept_at m m' e s) h
                  (omega (arith, s.fewer))))))

-- In a consistent memory, a swap-in of a process memory that is in the disk and no larger than memory
-- succeeds, with one round for each
-- process memory in memory and one more: the process memory gets a block and the time, every other
-- one keeps its place or moves to the disk, and the memory stays consistent.
pub swap_in_process_memory_lem :
    (memsize ptr time fuel : ℕ) (m : Memory) (p : ProcessMemory)
    → IsConsistent memsize m
    → get_elem? m.processes ptr ≡ some p
    → p.start_address ≡ in_disk
    → p.size ≤ memsize
    → get_process_memories_list_not_in_disk_count m.processes < fuel
    → (m' : Memory) × (swap_in_process_memory fuel ptr time m ≡ ok m')
      × SwapsIn memsize ptr time p m m'
swap_in_process_memory_lem memsize ptr time fuel m p v e k h c =
    go (swap_in_process_memory fuel ptr time m) refl
      (swap_in_result memsize ptr time p k fuel m v e h c)
  where
    go :
        (o : Outcome Memory)
        → swap_in_process_memory fuel ptr time m ≡ o
        → SwapInResult memsize ptr time p m o
        → (m' : Memory) × (swap_in_process_memory fuel ptr time m ≡ ok m')
          × SwapsIn memsize ptr time p m m'
    go (ok m') q r = (m', q, r)
    go Outcome.undefined q r = absurd r
    go Outcome.no_fuel q r = absurd r
