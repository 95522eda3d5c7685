-- ===== src/Producers/Semaphores/Safety.antt =====
-- The semaphores keep the buffer of workshop/producer-consumer-problem-semaphore.c a queue, and count its
-- space and its items.
use comp.Base.{
  ℕ, zero, suc, ◌+◌, ◌≡◌, refl, inl, inr, List, [], ◌∷◌, true, get_elem?, set, arith, Outcome, ok,
  Option-cases, All-get_elem?,
}
use comp.Producers.{buffer_size, empty_buffer}
use comp.Base.{total, total-set, le-total}
use comp.Producers.Threads.{Guarded, Guarded-set, All-outside}
use comp.Producers.Mutex.{Event, steps, exits}
use comp.Producers.Semaphores.{
  Thread, producing, consuming, Process, process_step, run, repeat, main,
}
use comp.Producers.Semaphores.Place.{inside, InPlace, spaces, items, outside}
use comp.Producers.Semaphores.Handling.{thread_step_lem}

-- One thread at most is in the critical section; while none is, what was inserted into the buffer is what
-- was removed from it, in the same order, and what is in it; and the two semaphores count its space and
-- its items, but for those that threads hold.
pub record IsBalanced (p : Process) : Type 0 where
  pub guarded :
      Guarded inside InPlace outside (p.variables).buffer_sem (p.variables).shared p.threads
  pub space : ((p.variables).shared).buffer_space ≡ (p.variables).space_sem + total spaces p.threads
  pub count :
      ((p.variables).shared).buffer_space + ((p.variables).items_sem + total items p.threads)
      ≡ buffer_size

pub record Continues (r : Outcome Process) : Type 0 where
  pub after : Process
  pub result : r ≡ ok after
  balanced : IsBalanced after

process_step_lem : (e : Event) (p : Process) → IsBalanced p → Continues (process_step e p)
unfolding process_step
process_step_lem exits p b = record {
  after = record p { variables = record (p.variables) { is_exiting = true } };
  result = refl;
  balanced = record {
    guarded = record {
      exclusive = (b.guarded).exclusive;
      places = (b.guarded).places;
      tidy = (b.guarded).tidy;
    };
    space = b.space;
    count = b.count;
  };
}
process_step_lem (steps i item) p b = elim (Option-cases (get_elem? p.threads i)) [
  | inl e ↦ record { after = p; result = simp e; balanced = b }
  | inr (t, e) ↦
      let v = p.variables in
      let g = b.guarded in
      let place = All-get_elem? (λ t. InPlace t v.shared) p.threads i g.places e in
      let s =
        thread_step_lem item v g.tidy t place
          (omega (arith, g.exclusive, le-total inside p.threads i t e))
          (omega (arith, b.space, le-total spaces p.threads i t e))
          (omega (arith, b.count, le-total items p.threads i t e)) in
      record {
        after = record { threads = set p.threads i s.next; variables = s.after };
        result = simp (e, s.result);
        balanced = record {
          guarded =
              Guarded-set inside InPlace outside v.buffer_sem v.shared p.threads i t
                (s.after).buffer_sem (s.after).shared s.next e g s.moves;
          space = omega (arith, b.space, s.space, total-set spaces p.threads i t s.next e);
          count = omega (arith, b.count, s.count, total-set items p.threads i t s.next e);
        };
      }
]

run_lem : (es : List Event) (p : Process) → IsBalanced p → Continues (run es p)
unfolding run
run_lem [] p b = record { after = p; result = refl; balanced = b }
run_lem (e ∷ es) p b =
    let s = process_step_lem e p b in
    let r = run_lem es s.after s.balanced in
    record { after = r.after; result = simp s.result r.result; balanced = r.balanced }

total-repeat :
    (f : Thread → ℕ) (n m : ℕ)
    → f producing ≡ 0
    → f consuming ≡ 0
    → total f (repeat n producing (repeat m consuming [])) ≡ 0
unfolding repeat
total-repeat f zero zero e e' = refl
total-repeat f zero (suc m) e e' = omega (arith, e', total-repeat f 0 m e e')
total-repeat f (suc n) m e e' = omega (arith, e, total-repeat f n m e e')

main-IsBalanced : (n m : ℕ) → IsBalanced (main n m)
unfolding main
main-IsBalanced n m = record {
  guarded = record {
    exclusive = omega (arith, total-repeat inside n m refl refl);
    places =
        All-outside inside (λ t. InPlace t empty_buffer) (λ t. outside t empty_buffer)
          (repeat n producing (repeat m consuming [])) (total-repeat inside n m refl refl);
    tidy = λ k. record { size = refl; space = omega arith; order = refl };
  };
  space = omega (arith, total-repeat spaces n m refl refl);
  count = omega (arith, total-repeat items n m refl refl);
}

-- However the threads interleave, and whenever main() sets is_exiting, no access of the buffer is out of
-- bounds, and the process stays balanced.
pub run-IsBalanced : (n m : ℕ) (es : List Event) → Continues (run es (main n m))
run-IsBalanced n m es = run_lem es (main n m) (main-IsBalanced n m)
