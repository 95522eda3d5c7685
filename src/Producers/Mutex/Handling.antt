-- ===== src/Producers/Mutex/Handling.antt =====
-- The steps of producer(), consumer(), insert_item() and remove_item() of
-- workshop/producer-consumer-problem.c.
use comp.Base.{
  ℕ, ◌+◌, ◌≤◌, ◌≡◌, refl, inl, inr, [], ◌∷◌, ◌++◌, Option, none, some, Bool, true, false, ltb,
  arith, Bool-cases,
}
use comp.Producers.{
  buffer_size, buffer_has_space, buffer_has_item, inserting, written, stored, removing, taken,
  shifting, fetched,
}
use comp.Producers.Order.{Tidy}
use comp.Producers.Mutex.{
  producer_exiting, buffer_is_full, consumer_exiting, buffer_is_empty, Thread, producing,
  insert_loop, insert_lock, insert_locked, insert_unlock, insert_returned, consuming, remove_loop,
  remove_lock, remove_locked, remove_unlock, remove_returned, working, exited, Variables,
  thread_step,
}
use comp.Producers.Mutex.Place.{inside, InPlace}
use comp.Producers.Mutex.Moving.{
  Steps, step_outside, step_working, step_lock, step_unlock, step_inside,
}

module _ (item : ℕ) (v : Variables) where
  insert_locked_lem :
      (i : ℕ) → v.buffer_lock + 1 ≤ 1 → Tidy v.shared → Steps item (insert_locked i) v
  unfolding thread_step buffer_has_space
  insert_locked_lem i le tidy = elim (Bool-cases (ltb 0 (v.shared).buffer_space)) [
    | inl e ↦
        step_inside item v (insert_locked i) (working (inserting i)) v.shared (simp e) refl refl le
          (tidy, ground (arith, e))
    | inr e ↦
        step_inside item v (insert_locked i) (insert_unlock i) v.shared (simp e) refl refl le tidy
  ]

  remove_locked_lem : v.buffer_lock + 1 ≤ 1 → Tidy v.shared → Steps item remove_locked v
  unfolding thread_step buffer_has_item
  remove_locked_lem le tidy = elim (Bool-cases (ltb (v.shared).buffer_space buffer_size)) [
    | inl e ↦
        step_inside item v remove_locked (working removing) v.shared (simp e) refl refl le
          (tidy, ground (arith, e))
    | inr e ↦ step_inside item v remove_locked remove_unlock v.shared (simp e) refl refl le tidy
  ]

  module _ (tidy : v.buffer_lock ≡ 1 → Tidy v.shared) where
    insert_loop_lem : (i : ℕ) (is_inserted : Bool) → Steps item (insert_loop i is_inserted) v
    unfolding thread_step
    insert_loop_lem i true =
        step_outside item v (insert_loop i true) (insert_returned i true) v refl refl refl refl refl
          tidy
    insert_loop_lem i false = elim (Bool-cases v.is_exiting) [
      | inl e ↦
          step_outside item v (insert_loop i false) (insert_returned i false) v (simp e) refl refl
            refl refl tidy
      | inr e ↦
          step_outside item v (insert_loop i false) (insert_lock i) v (simp e) refl refl refl refl
            tidy
    ]

    remove_loop_lem : (result : Option ℕ) → Steps item (remove_loop result) v
    unfolding thread_step
    remove_loop_lem (some i) =
        step_outside item v (remove_loop (some i)) (remove_returned (some i)) v refl refl refl refl
          refl tidy
    remove_loop_lem none = elim (Bool-cases v.is_exiting) [
      | inl e ↦
          step_outside item v (remove_loop none) (remove_returned none) v (simp e) refl refl refl
            refl tidy
      | inr e ↦
          step_outside item v (remove_loop none) remove_lock v (simp e) refl refl refl refl tidy
    ]

    insert_returned_lem :
        (i : ℕ) (is_inserted : Bool) → Steps item (insert_returned i is_inserted) v
    unfolding thread_step
    insert_returned_lem i true =
        step_outside item v (insert_returned i true) producing _ refl refl refl refl refl tidy
    insert_returned_lem i false = elim (Bool-cases v.is_exiting) [
      | inl e ↦
          step_outside item v (insert_returned i false) exited
            (record v { output = v.output ++ producer_exiting ∷ [] }) (simp e) refl refl refl refl
            tidy
      | inr e ↦
          step_outside item v (insert_returned i false) producing
            (record v { output = v.output ++ buffer_is_full ∷ [] }) (simp e) refl refl refl refl
            tidy
    ]

    remove_returned_lem : (result : Option ℕ) → Steps item (remove_returned result) v
    unfolding thread_step
    remove_returned_lem (some i) =
        step_outside item v (remove_returned (some i)) consuming _ refl refl refl refl refl tidy
    remove_returned_lem none = elim (Bool-cases v.is_exiting) [
      | inl e ↦
          step_outside item v (remove_returned none) exited
            (record v { output = v.output ++ consumer_exiting ∷ [] }) (simp e) refl refl refl refl
            tidy
      | inr e ↦
          step_outside item v (remove_returned none) consuming
            (record v { output = v.output ++ buffer_is_empty ∷ [] }) (simp e) refl refl refl refl
            tidy
    ]

    pub thread_step_lem :
        (t : Thread) → InPlace t v.shared → v.buffer_lock + inside t ≤ 1 → Steps item t v
    unfolding thread_step
    thread_step_lem producing p le =
        step_outside item v producing (insert_loop item false) v refl refl refl refl refl tidy
    thread_step_lem (insert_loop i is_inserted) p le = insert_loop_lem i is_inserted
    thread_step_lem (insert_lock i) p le =
        step_lock item v (insert_lock i) (insert_locked i) refl refl refl (omega (arith, le))
          (λ t. t) tidy
    thread_step_lem (insert_locked i) p le = insert_locked_lem i le p
    thread_step_lem (insert_unlock i) p le =
        step_unlock item v (insert_unlock i) (insert_loop i false) refl refl refl p
    thread_step_lem (insert_returned i is_inserted) p le = insert_returned_lem i is_inserted
    thread_step_lem consuming p le =
        step_outside item v consuming (remove_loop none) v refl refl refl refl refl tidy
    thread_step_lem (remove_loop result) p le = remove_loop_lem result
    thread_step_lem remove_lock p le =
        step_lock item v remove_lock remove_locked refl refl refl (omega (arith, le)) (λ t. t) tidy
    thread_step_lem remove_locked p le = remove_locked_lem le p
    thread_step_lem remove_unlock p le =
        step_unlock item v remove_unlock (remove_loop none) refl refl refl p
    thread_step_lem (remove_returned result) p le = remove_returned_lem result
    thread_step_lem (working (stored i)) p le =
        step_unlock item v (working (stored i)) (insert_loop i true) refl refl refl p
    thread_step_lem (working (fetched i)) p le =
        step_unlock item v (working (fetched i)) (remove_loop (some i)) refl refl refl p
    thread_step_lem (working (inserting i)) p le = step_working item v (inserting i) refl le p
    thread_step_lem (working (written i)) p le = step_working item v (written i) refl le p
    thread_step_lem (working removing) p le = step_working item v removing refl le p
    thread_step_lem (working (taken i pos)) p le = step_working item v (taken i pos) refl le p
    thread_step_lem (working (shifting i n pos)) p le =
        step_working item v (shifting i n pos) refl le p
    thread_step_lem exited p le = step_outside item v exited exited v refl refl refl refl refl tidy
