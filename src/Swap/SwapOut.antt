-- ===== src/Swap/SwapOut.antt =====
-- `swap_out_process_memory` of memory-management.c, as a whole.
use comp.Base.{ℕ, suc, ◌≡◌, refl, sym, ap, subst, Option, none, some, arith}
use comp.Processes.{
  Address, ProcessMemory, in_disk, in_ram, get_process_memories_list_not_in_disk_count,
}
use comp.Processes.Updates.{sizes, count-set, sizes-set}
use comp.Swap.{
  Memory, Outcome, ok, start_result, release, release_in_ram, swap_out_candidate,
  swap_out_process_memory,
}
use comp.Swap.Invariant.{IsConsistent, release-IsConsistent}
use comp.Swap.Victim.{IsVictim, IsChoice, swap_out_candidate_lem}

-- What a swap-out does to a memory: the block of a best process memory becomes free.
pub record SwapsOut (memsize : ℕ) (m m' : Memory) : Type 0 where
  pub position : ℕ
  pub victim : ProcessMemory
  pub start : ℕ
  pub chosen : IsVictim m.processes m.processes position victim
  at_start : victim.start_address ≡ in_ram start
  pub result : m' ≡ release position victim start m
  pub consistent : IsConsistent memsize m'
  pub fewer :
      suc (get_process_memories_list_not_in_disk_count m'.processes)
      ≡ get_process_memories_list_not_in_disk_count m.processes
  pub same_sizes : sizes m'.processes ≡ sizes m.processes

-- A swap-out of a consistent memory frees the block of the best process memory. It reads an
-- uninitialised pointer exactly when no process memory is in memory.
abbrev pub SwapOutResult : ℕ → Memory → Outcome Memory → Type 0
SwapOutResult memsize m (ok m') = SwapsOut memsize m m'
SwapOutResult memsize m Outcome.undefined =
    get_process_memories_list_not_in_disk_count m.processes ≡ 0
SwapOutResult memsize m Outcome.no_fuel = ⊥

module _ (memsize : ℕ) (m : Memory) (v : IsConsistent memsize m) where
  SwapsOut-release :
      (i : ℕ) (p : ProcessMemory) (a : ℕ)
      → p.start_address ≡ in_ram a
      → IsVictim m.processes m.processes i p
      → SwapsOut memsize m (release i p a m)
  unfolding release
  SwapsOut-release i p a e h = record {
    position = i;
    victim = p;
    start = a;
    chosen = h;
    at_start = e;
    result = refl;
    consistent = release-IsConsistent memsize m v i p h.found a e;
    fewer = ground (
      arith,
      h.in_memory,
      count-set m.processes i p (record p { start_address = in_disk; swap_in_time = 0 }) h.found,
    );
    same_sizes = sizes-set m.processes i p _ h.found refl;
  }

  released :
      (i : ℕ) (p : ProcessMemory) (a : Address)
      → p.start_address ≡ a
      → IsVictim m.processes m.processes i p
      → SwapOutResult memsize m (release_in_ram m i p)
  unfolding release_in_ram
  released i p in_disk e h = absurd (ground (arith, h.in_memory))
  released i p (in_ram a) e h =
      subst (SwapOutResult memsize m) (sym (ap (start_result m i p) e)) (SwapsOut-release i p a e h)

  choice_result :
      (o : Option (ℕ × ProcessMemory))
      → swap_out_candidate 0 m.processes ≡ o
      → IsChoice m.processes m.processes o
      → SwapOutResult memsize m (swap_out_process_memory m)
  unfolding swap_out_process_memory
  choice_result none e h = rw (e, swap_out_process_memory) h
  choice_result (some (i, p)) e h =
      rw (e, swap_out_process_memory) (released i p p.start_address refl h)

  -- In a consistent memory, a swap-out frees the block of a largest process memory, the longest
  -- loaded of its size, and keeps the memory consistent. It reads an uninitialised pointer only if no
  -- process memory is in memory.
  pub swap_out_process_memory_lem : SwapOutResult memsize m (swap_out_process_memory m)
  swap_out_process_memory_lem =
      choice_result (swap_out_candidate 0 m.processes) refl (swap_out_candidate_lem m.processes)
