-- ===== src/Producers/Semaphores/Blocked.antt =====
-- Threads of workshop/producer-consumer-problem-semaphore.c that wait for an item at the end.
use comp.Base.{
  ℕ, ◌≡◌, inl, inr, refl, sym, ap, List, [], ◌∷◌, true, get_elem?, ok, Option-cases, All,
  All-get_elem?, set_self,
}
use comp.Producers.Mutex.{Event, steps, exits}
use comp.Producers.Semaphores.{
  Thread, remove_wait_items, exited, Variables, thread_step, Process, process_step, run,
}

-- A thread that has ended, or a consumer that waits for items_sem.
pub data AtRest : Thread → Type 0 where
  ended : AtRest exited
  waiting : AtRest remove_wait_items

-- The threads are at rest although is_exiting is set, and there is no item to wait for.
pub record Blocked (p : Process) : Type 0 where
  pub threads : All AtRest p.threads
  pub empty : (p.variables).items_sem ≡ 0
  pub exiting : (p.variables).is_exiting ≡ true

AtRest-stays :
    (item : ℕ) (t : Thread) (v : Variables)
    → AtRest t
    → v.items_sem ≡ 0
    → thread_step item t v ≡ ok (t, v)
unfolding thread_step
AtRest-stays item _ v ended e = refl
AtRest-stays item _ v waiting e = simp e

process_step-Blocked : (e : Event) (p : Process) → Blocked p → process_step e p ≡ ok p
unfolding process_step
process_step-Blocked exits p b =
    ap (λ k. ok (record p { variables = record (p.variables) { is_exiting = k } })) (sym b.exiting)
process_step-Blocked (steps i item) p b = elim (Option-cases (get_elem? p.threads i)) [
  | inl e ↦ simp e
  | inr (t, e) ↦ simp (
    e,
    AtRest-stays item t p.variables (All-get_elem? AtRest p.threads i b.threads e) b.empty,
    set_self p.threads i t e,
  )
]

-- Where is_exiting is set and each thread has ended or waits for an item that nobody will insert, nothing
-- moves any more: a thread that waits never sees is_exiting.
pub run-Blocked : (es : List Event) (p : Process) → Blocked p → run es p ≡ ok p
unfolding run
run-Blocked [] p b = refl
run-Blocked (e ∷ es) p b = simp (process_step-Blocked e p b) (run-Blocked es p b)
