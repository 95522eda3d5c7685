-- ===== src/Producers/Mutex/Moving.antt =====
-- The kinds of step of a thread of workshop/producer-consumer-problem.c.
use comp.Base.{
  ℕ, ◌+◌, ◌-◌, ◌≤◌, ◌≡◌, refl, sym, ◌∙◌, subst, inl, inr, ◌==◌, if◌then◌else◌, arith, ok, ◌>>=◌,
  Bool-cases,
}
use comp.Producers.{Buffer, Critical, critical_step}
use comp.Producers.Order.{Tidy, Fits, critical_step_lem}
use comp.Producers.Threads.{Moves}
use comp.Producers.Mutex.{Thread, working, Variables, thread_step}
use comp.Producers.Mutex.Place.{inside, InPlace, outside}

-- A thread's step is defined and keeps to its place.
pub record Steps (item : ℕ) (t : Thread) (v : Variables) : Type 0 where
  pub next : Thread
  pub after : Variables
  pub result : thread_step item t v ≡ ok (next, after)
  pub moves :
      Moves inside InPlace outside v.buffer_lock v.shared t after.buffer_lock after.shared next

module _ (item : ℕ) (v : Variables) where
  -- A step outside that changes neither the mutex nor the buffer.
  pub step_outside :
      (t t' : Thread) (v' : Variables)
      → thread_step item t v ≡ ok (t', v')
      → v'.shared ≡ v.shared
      → v'.buffer_lock ≡ v.buffer_lock
      → inside t ≡ 0
      → inside t' ≡ 0
      → (v.buffer_lock ≡ 1 → Tidy v.shared)
      → Steps item t v
  step_outside t t' v' e b l i i' tidy = record {
    next = t';
    after = v';
    result = e;
    moves = record {
      count = omega (arith, l, i, i');
      place = outside t' v'.shared i';
      tidy = λ k. subst Tidy (sym b) (tidy (sym l ∙ k));
      others = inl b;
    };
  }

  -- Locking the mutex, or waiting for it.
  pub step_lock :
      (t t' : Thread)
      → thread_step item t v
        ≡ ok (
            if v.buffer_lock == 0
            then (t, v)
            else (t', record v { buffer_lock = v.buffer_lock - 1 }))
      → inside t ≡ 0
      → inside t' ≡ 1
      → v.buffer_lock ≤ 1
      → (Tidy v.shared → InPlace t' v.shared)
      → (v.buffer_lock ≡ 1 → Tidy v.shared)
      → Steps item t v
  step_lock t t' e i i' le enter tidy = elim (Bool-cases (v.buffer_lock == 0)) [
    | inl z ↦ step_outside t t v (e ∙ simp z) refl refl i i tidy
    | inr nz ↦ record {
      next = t';
      after = record v { buffer_lock = v.buffer_lock - 1 };
      result = e ∙ simp nz;
      moves = record {
        count = ground (arith, nz, i, i');
        place = enter (tidy (ground (arith, nz, le)));
        tidy = λ k. absurd (ground (arith, k, le));
        others = inl refl;
      };
    }
  ]

  -- Unlocking the mutex behind a change that is complete.
  pub step_unlock :
      (t t' : Thread)
      → thread_step item t v ≡ ok (t', record v { buffer_lock = v.buffer_lock + 1 })
      → inside t ≡ 1
      → inside t' ≡ 0
      → Tidy v.shared
      → Steps item t v
  step_unlock t t' e i i' tidy = record {
    next = t';
    after = record v { buffer_lock = v.buffer_lock + 1 };
    result = e;
    moves = record {
      count = omega (arith, i, i');
      place = outside t' v.shared i';
      tidy = λ k. tidy;
      others = inl refl;
    };
  }

  -- A step with the mutex.
  pub step_inside :
      (t t' : Thread) (b : Buffer)
      → thread_step item t v ≡ ok (t', record v { shared = b })
      → inside t ≡ 1
      → inside t' ≡ 1
      → v.buffer_lock + 1 ≤ 1
      → InPlace t' b
      → Steps item t v
  step_inside t t' b e i i' le place = record {
    next = t';
    after = record v { shared = b };
    result = e;
    moves = record {
      count = omega (arith, i, i');
      place = place;
      tidy = λ k. absurd (ground (arith, k, le));
      others = inr i;
    };
  }

  pub step_working :
      (c : Critical)
      → thread_step item (working c) v
        ≡ (do (c', b) ← critical_step c v.shared; ok (working c', record v { shared = b }))
      → v.buffer_lock + 1 ≤ 1
      → Fits c v.shared
      → Steps item (working c) v
  step_working c e le f =
      let p = critical_step_lem v.shared c f in
      step_inside (working c) (working p.next) p.after (e ∙ simp p.result) refl refl le p.fits
