-- ===== src/Multi/Queues.antt =====
-- The array of ready queues of `multi_scheduler_runner` in project1/process-scheduler.c.
use mathlib.Core.List.{append_assoc, append-nil, map-append}
use comp.Base.{
  ℕ, zero, suc, ◌+◌, ◌-◌, ◌≤◌, ◌<◌, ◌≡◌, refl, sym, ap, subst, ◌∙◌, [], ◌∷◌, ◌++◌, Option, none,
  some, All, All-append, All-split, arith,
}
use comp.Swap.{ok}
use comp.Scheduler.{
  ProcessControlBlock, PcbsQueue, ready, min_priority, pop_front_pcb_from_pcbs_queue,
  append_pcb_to_pcbs_list,
}
use comp.Scheduler.Queue.{Joins}
use comp.Scheduler.Arrivals.{append_pcb-append}
use comp.Scheduler.Work.{work, remaining, times, pcb_keys, pcb_key, work-append, times-append}
use comp.Multi.{ReadyQs, append_to_ready_qs, pop_from_ready_qs}

-- The processes that wait, those of the highest priority first.
abbrev pub by_priority : ReadyQs → PcbsQueue
by_priority qs = qs.first ++ (qs.second ++ qs.third)

abbrev pub IsAtLevel : ℕ → ProcessControlBlock → Type 0
IsAtLevel level pcb = (pcb.priority ≡ level) × (pcb.process_state ≡ ready)

-- Each process waits in the queue of its priority.
pub record IsLevelled (qs : ReadyQs) : Type 0 where
  pub at_first : All (IsAtLevel 1) qs.first
  pub at_second : All (IsAtLevel 2) qs.second
  pub at_third : All (IsAtLevel 3) qs.third

-- The process that is popped is the first of those of the highest priority.
pub record Pops (qs : ReadyQs) (pcb : ProcessControlBlock) (qs' : ReadyQs) : Type 0 where
  pub split : by_priority qs ≡ pcb ∷ by_priority qs'
  pub levelled : IsLevelled qs'
  pub some_level : 0 < pcb.priority
  pub in_range : pcb.priority ≤ min_priority
  waited : pcb.process_state ≡ ready
  none_higher : All (λ other. pcb.priority ≤ other.priority) (by_priority qs')

abbrev pub PopResult : ReadyQs → Option (ProcessControlBlock × ReadyQs) → Type 0
PopResult qs none = by_priority qs ≡ []
PopResult qs (some (pcb, qs')) = Pops qs pcb qs'

higher :
    (low level : ℕ) (l : PcbsQueue)
    → low ≤ level
    → All (IsAtLevel level) l
    → All (λ other. low ≤ other.priority) l
higher low level [] h a = tt
higher low level (x ∷ l) h a = (omega (arith, a.0), higher low level l h a.1)

none_higher_than :
    (low : ℕ) (pcb : ProcessControlBlock) (xs ys zs : PcbsQueue)
    → pcb.priority ≡ low
    → All (λ other. low ≤ other.priority) xs
    → All (λ other. low ≤ other.priority) ys
    → All (λ other. low ≤ other.priority) zs
    → All (λ other. pcb.priority ≤ other.priority) (xs ++ (ys ++ zs))
none_higher_than low pcb xs ys zs e hx hy hz =
    subst (λ p. All (λ (other : ProcessControlBlock). p ≤ other.priority) (xs ++ (ys ++ zs)))
      (sym e) (All-append _ xs (ys ++ zs) hx (All-append _ ys zs hy hz))

abbrev three : PcbsQueue → PcbsQueue → PcbsQueue → ReadyQs
three a b c = record { first = a; second = b; third = c }

popped :
    (a b c : PcbsQueue)
    → All (IsAtLevel 1) a
    → All (IsAtLevel 2) b
    → All (IsAtLevel 3) c
    → PopResult (three a b c) (pop_from_ready_qs (three a b c))
unfolding pop_from_ready_qs pop_front_pcb_from_pcbs_queue
popped [] [] [] ha hb hc = refl
popped [] [] (pcb ∷ c) ha hb hc = record {
  split = refl;
  levelled = record { at_first = tt; at_second = tt; at_third = hc.1 };
  some_level = omega (arith, hc.0);
  in_range = omega (arith, hc.0);
  waited = hc.0.1;
  none_higher = none_higher_than 3 pcb [] [] c hc.0.0 tt tt (higher 3 3 c (omega arith) hc.1);
}
popped [] (pcb ∷ b) c ha hb hc = record {
  split = refl;
  levelled = record { at_first = tt; at_second = hb.1; at_third = hc };
  some_level = omega (arith, hb.0);
  in_range = omega (arith, hb.0);
  waited = hb.0.1;
  none_higher =
      none_higher_than 2 pcb [] b c hb.0.0 tt (higher 2 2 b (omega arith) hb.1)
        (higher 2 3 c (omega arith) hc);
}
popped (pcb ∷ a) b c ha hb hc = record {
  split = refl;
  levelled = record { at_first = ha.1; at_second = hb; at_third = hc };
  some_level = omega (arith, ha.0);
  in_range = omega (arith, ha.0);
  waited = ha.0.1;
  none_higher =
      none_higher_than 1 pcb a b c ha.0.0 (higher 1 1 a (omega arith) ha.1)
        (higher 1 2 b (omega arith) hb) (higher 1 3 c (omega arith) hc);
}

-- When each process waits in the queue of its priority, the next process to run is the first of the
-- highest priority that waits, the others keep their order and their queues, and there is none only
-- if nothing waits.
pub pop_from_ready_qs_lem : (qs : ReadyQs) → IsLevelled qs → PopResult qs (pop_from_ready_qs qs)
pop_from_ready_qs_lem qs h = popped qs.first qs.second qs.third h.at_first h.at_second h.at_third

abbrev Appended : ProcessControlBlock → ReadyQs → Type 0
Appended pcb qs =
    (qs' : ReadyQs) × (append_to_ready_qs pcb (pcb.priority - 1) qs ≡ ok qs')
    × IsLevelled qs'
    × Joins pcb (by_priority qs) (by_priority qs')

module _ (pcb : ProcessControlBlock) (qs : ReadyQs) (h : IsLevelled qs)
    (w : pcb.process_state ≡ ready) where
  snoc-IsAtLevel :
      (level : ℕ) (l : PcbsQueue)
      → pcb.priority ≡ level
      → All (IsAtLevel level) l
      → All (IsAtLevel level) (append_pcb_to_pcbs_list pcb l)
  snoc-IsAtLevel level l e a =
      subst (All (IsAtLevel level)) (sym (append_pcb-append pcb l))
        (All-append (IsAtLevel level) l (pcb ∷ []) a ((e, w), tt))

  appended : (level : ℕ) → pcb.priority ≡ level → 0 < level → level ≤ min_priority → Appended pcb qs
  unfolding append_to_ready_qs
  appended zero e lo hi = absurd (omega arith)
  appended (suc zero) e lo hi = (
    record qs { first = append_pcb_to_pcbs_list pcb qs.first },
    ap (λ l. append_to_ready_qs pcb (l - 1) qs) e,
    record {
      at_first = snoc-IsAtLevel 1 qs.first e h.at_first;
      at_second = h.at_second;
      at_third = h.at_third;
    },
    record {
      ahead = qs.first;
      behind = qs.second ++ qs.third;
      old = refl;
      new =
          ap (λ l. l ++ (qs.second ++ qs.third)) (append_pcb-append pcb qs.first)
          ∙ append_assoc qs.first (pcb ∷ []) (qs.second ++ qs.third);
    },
  )
  appended (suc (suc zero)) e lo hi = (
    record qs { second = append_pcb_to_pcbs_list pcb qs.second },
    ap (λ l. append_to_ready_qs pcb (l - 1) qs) e,
    record {
      at_first = h.at_first;
      at_second = snoc-IsAtLevel 2 qs.second e h.at_second;
      at_third = h.at_third;
    },
    record {
      ahead = qs.first ++ qs.second;
      behind = qs.third;
      old = sym (append_assoc qs.first qs.second qs.third);
      new = simp (append_pcb-append, append_assoc);
    },
  )
  appended (suc (suc (suc zero))) e lo hi = (
    record qs { third = append_pcb_to_pcbs_list pcb qs.third },
    ap (λ l. append_to_ready_qs pcb (l - 1) qs) e,
    record {
      at_first = h.at_first;
      at_second = h.at_second;
      at_third = snoc-IsAtLevel 3 qs.third e h.at_third;
    },
    record {
      ahead = qs.first ++ (qs.second ++ qs.third);
      behind = [];
      old = sym (append-nil (qs.first ++ (qs.second ++ qs.third)));
      new = simp (append_pcb-append, append_assoc);
    },
  )
  appended (suc (suc (suc (suc n)))) e lo hi = absurd (omega arith)

-- A ready process of priority 1, 2 or 3 is put in the queue of its priority: the index is within the
-- array, each process waits in the queue of its priority still, and the others keep their order.
pub append_to_ready_qs_lem :
    (pcb : ProcessControlBlock) (qs : ReadyQs)
    → IsLevelled qs
    → pcb.process_state ≡ ready
    → 0 < pcb.priority
    → pcb.priority ≤ min_priority
    → (qs' : ReadyQs) × (append_to_ready_qs pcb (pcb.priority - 1) qs ≡ ok qs')
      × IsLevelled qs'
      × Joins pcb (by_priority qs) (by_priority qs')
append_to_ready_qs_lem pcb qs h w = appended pcb qs h w pcb.priority refl

module _ (pcb : ProcessControlBlock) (queue queue' : PcbsQueue) (j : Joins pcb queue queue') where
  pub All-Joins : (P : ProcessControlBlock → Type 0) → P pcb → All P queue → All P queue'
  All-Joins P p a =
      let (x, y) = All-split P j.ahead j.behind (subst (All P) j.old a) in
      subst (All P) (sym j.new) (All-append P j.ahead (pcb ∷ j.behind) x (p, y))

  pub work-Joins : work queue' ≡ remaining pcb + work queue
  work-Joins = omega (
    arith,
    ap work j.old,
    ap work j.new,
    work-append j.ahead j.behind,
    work-append j.ahead (pcb ∷ j.behind),
  )

  pub times-Joins :
      (id job : ℕ)
      → times id job (pcb_keys queue')
        ≡ times id job (pcb_key pcb ∷ []) + times id job (pcb_keys queue)
  times-Joins id job = omega (
    arith,
    ap (λ l. times id job (pcb_keys l)) j.old,
    ap (λ l. times id job (pcb_keys l)) j.new,
    ap (times id job) (map-append pcb_key j.ahead j.behind),
    ap (times id job) (map-append pcb_key j.ahead (pcb ∷ j.behind)),
    times-append id job (pcb_keys j.ahead) (pcb_keys j.behind),
    times-append id job (pcb_keys j.ahead) (pcb_key pcb ∷ pcb_keys j.behind),
  )
