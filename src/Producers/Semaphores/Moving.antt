-- ===== src/Producers/Semaphores/Moving.antt =====
-- The kinds of step of a thread of workshop/producer-consumer-problem-semaphore.c.
use comp.Base.{
  ℕ, ◌+◌, ◌-◌, ◌≤◌, ◌≡◌, refl, sym, ap, ◌∙◌, subst, inl, inr, ◌==◌, if◌then◌else◌, arith, ok, ◌>>=◌,
  Bool-cases,
}
use comp.Producers.{Critical, critical_step}
use comp.Producers.Order.{Tidy, Fits, held_space, held_items, critical_step_lem}
use comp.Producers.Threads.{Moves}
use comp.Producers.Semaphores.{Thread, working, Variables, thread_step}
use comp.Producers.Semaphores.Place.{inside, InPlace, spaces, items, outside}

-- A thread's step is defined and keeps to its place and to the counts.
pub record Steps (item : ℕ) (t : Thread) (v : Variables) : Type 0 where
  pub next : Thread
  pub after : Variables
  pub result : thread_step item t v ≡ ok (next, after)
  pub moves :
      Moves inside InPlace outside v.buffer_sem v.shared t after.buffer_sem after.shared next
  pub space :
      (after.shared).buffer_space + (v.space_sem + spaces t)
      ≡ (v.shared).buffer_space + (after.space_sem + spaces next)
  pub count :
      (after.shared).buffer_space + (after.items_sem + items next)
      ≡ (v.shared).buffer_space + (v.items_sem + items t)

module _ (item : ℕ) (v : Variables) where
  -- A step outside the critical section.
  pub step_outside :
      (t t' : Thread) (v' : Variables)
      → thread_step item t v ≡ ok (t', v')
      → v'.shared ≡ v.shared
      → v'.buffer_sem ≡ v.buffer_sem
      → inside t ≡ 0
      → inside t' ≡ 0
      → v.space_sem + spaces t ≡ v'.space_sem + spaces t'
      → v'.items_sem + items t' ≡ v.items_sem + items t
      → (v.buffer_sem ≡ 1 → Tidy v.shared)
      → Steps item t v
  step_outside t t' v' e b l i i' s c tidy = record {
    next = t';
    after = v';
    result = e;
    moves = record {
      count = omega (arith, l, i, i');
      place = outside t' v'.shared i';
      tidy = λ k. subst Tidy (sym b) (tidy (sym l ∙ k));
      others = inl b;
    };
    space = omega (arith, ap (λ b. b.buffer_space) b, s);
    count = omega (arith, ap (λ b. b.buffer_space) b, c);
  }

  -- The semaphore of the critical section.
  pub step_enter :
      (t : Thread) (c : Critical)
      → thread_step item t v
        ≡ ok (
            if v.buffer_sem == 0
            then (t, v)
            else (working c, record v { buffer_sem = v.buffer_sem - 1 }))
      → inside t ≡ 0
      → spaces t ≡ held_space c
      → items t ≡ held_items c
      → v.buffer_sem ≤ 1
      → (Tidy v.shared → Fits c v.shared)
      → (v.buffer_sem ≡ 1 → Tidy v.shared)
      → Steps item t v
  step_enter t c e i s n le enter tidy = elim (Bool-cases (v.buffer_sem == 0)) [
    | inl z ↦ step_outside t t v (e ∙ simp z) refl refl i i refl refl tidy
    | inr nz ↦ record {
      next = working c;
      after = record v { buffer_sem = v.buffer_sem - 1 };
      result = e ∙ simp nz;
      moves = record {
        count = ground (arith, nz, i);
        place = enter (tidy (ground (arith, nz, le)));
        tidy = λ k. absurd (ground (arith, k, le));
        others = inl refl;
      };
      space = omega (arith, s);
      count = omega (arith, n);
    }
  ]

  pub step_leave :
      (c : Critical) (t' : Thread)
      → thread_step item (working c) v ≡ ok (t', record v { buffer_sem = v.buffer_sem + 1 })
      → inside t' ≡ 0
      → held_space c ≡ spaces t'
      → held_items c ≡ items t'
      → Tidy v.shared
      → Steps item (working c) v
  step_leave c t' e i' s n tidy = record {
    next = t';
    after = record v { buffer_sem = v.buffer_sem + 1 };
    result = e;
    moves = record {
      count = omega (arith, i');
      place = outside t' v.shared i';
      tidy = λ k. tidy;
      others = inl refl;
    };
    space = omega (arith, s);
    count = omega (arith, n);
  }

  pub step_working :
      (c : Critical)
      → thread_step item (working c) v
        ≡ (do (c', b) ← critical_step c v.shared; ok (working c', record v { shared = b }))
      → v.buffer_sem + 1 ≤ 1
      → Fits c v.shared
      → Steps item (working c) v
  step_working c e le f =
      let p = critical_step_lem v.shared c f in
      record {
        next = working p.next;
        after = record v { shared = p.after };
        result = e ∙ simp p.result;
        moves = record {
          count = refl;
          place = p.fits;
          tidy = λ k. absurd (ground (arith, k, le));
          others = inr refl;
        };
        space = omega (arith, p.spaces);
        count = omega (arith, p.items);
      }
