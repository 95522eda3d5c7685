-- ===== src/Producers/Mutex/Safety.antt =====
-- The mutex keeps the buffer of workshop/producer-consumer-problem.c a queue.
use comp.Base.{
  ℕ, zero, suc, ◌+◌, ◌≤◌, ◌≡◌, refl, ◌∙◌, inl, inr, List, [], ◌∷◌, true, get_elem?, set, arith,
  Outcome, ok, Option-cases, All-get_elem?,
}
use comp.Producers.{empty_buffer}
use comp.Base.{total, le-total}
use comp.Producers.Threads.{Guarded, Guarded-set, All-outside}
use comp.Producers.Mutex.{
  Thread, producing, consuming, Process, Event, steps, exits, process_step, run, repeat, main,
}
use comp.Producers.Mutex.Place.{inside, InPlace, outside}
use comp.Producers.Mutex.Handling.{thread_step_lem}

-- One thread at most has the mutex; while none has it, what was inserted into the buffer is what was
-- removed from it, in the same order, and what is in it.
abbrev pub IsGuarded : Process → Type 0
IsGuarded p =
    Guarded inside InPlace outside (p.variables).buffer_lock (p.variables).shared p.threads

pub record Continues (r : Outcome Process) : Type 0 where
  pub after : Process
  pub result : r ≡ ok after
  pub guarded : IsGuarded after

process_step_lem : (e : Event) (p : Process) → IsGuarded p → Continues (process_step e p)
unfolding process_step
process_step_lem exits p g = record {
  after = record p { variables = record (p.variables) { is_exiting = true } };
  result = refl;
  guarded = record { exclusive = g.exclusive; places = g.places; tidy = g.tidy };
}
process_step_lem (steps i item) p g = elim (Option-cases (get_elem? p.threads i)) [
  | inl e ↦ record { after = p; result = simp e; guarded = g }
  | inr (t, e) ↦
      let v = p.variables in
      let place = All-get_elem? (λ t. InPlace t v.shared) p.threads i g.places e in
      let one : v.buffer_lock + inside t ≤ 1 =
        omega (arith, g.exclusive, le-total inside p.threads i t e) in
      let s = thread_step_lem item v g.tidy t place one in
      record {
        after = record { threads = set p.threads i s.next; variables = s.after };
        result = simp (e, s.result);
        guarded =
            Guarded-set inside InPlace outside v.buffer_lock v.shared p.threads i t
              (s.after).buffer_lock (s.after).shared s.next e g s.moves;
      }
]

run_lem : (es : List Event) (p : Process) → IsGuarded p → Continues (run es p)
unfolding run
run_lem [] p g = record { after = p; result = refl; guarded = g }
run_lem (e ∷ es) p g =
    let s = process_step_lem e p g in
    let r = run_lem es s.after s.guarded in
    record { after = r.after; result = simp s.result r.result; guarded = r.guarded }

total-repeat :
    (n : ℕ) (t : Thread) (ts : List Thread)
    → inside t ≡ 0
    → total inside (repeat n t ts) ≡ total inside ts
unfolding repeat
total-repeat zero t ts e = refl
total-repeat (suc n) t ts e = omega (arith, e, total-repeat n t ts e)

main-IsGuarded : (n m : ℕ) → IsGuarded (main n m)
unfolding main
main-IsGuarded n m =
    let none : total inside (repeat n producing (repeat m consuming [])) ≡ 0 =
      total-repeat n producing (repeat m consuming []) refl ∙ total-repeat m consuming [] refl in
    record {
      exclusive = omega (arith, none);
      places =
          All-outside inside (λ t. InPlace t empty_buffer) (λ t. outside t empty_buffer)
            (repeat n producing (repeat m consuming [])) none;
      tidy = λ k. record { size = refl; space = omega arith; order = refl };
    }

-- However the threads interleave, and whenever main() sets is_exiting, no access of the buffer is out of
-- bounds, and the process stays guarded.
pub run-IsGuarded : (n m : ℕ) (es : List Event) → Continues (run es (main n m))
run-IsGuarded n m es = run_lem es (main n m) (main-IsGuarded n m)
