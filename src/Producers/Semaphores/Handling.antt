-- ===== src/Producers/Semaphores/Handling.antt =====
-- The steps of producer(), consumer(), insert_item() and remove_item() of
-- workshop/producer-consumer-problem-semaphore.c.
use comp.Base.{
  ℕ, ◌+◌, ◌-◌, ◌≤◌, ◌≡◌, refl, inl, inr, [], ◌∷◌, ◌++◌, Option, none, some, Bool, true, false, ◌==◌,
  arith, Bool-cases,
}
use comp.Producers.{buffer_size, inserting, written, stored, removing, taken, shifting, fetched}
use comp.Producers.Order.{Tidy}
use comp.Producers.Mutex.{producer_exiting, buffer_is_full, consumer_exiting, buffer_is_empty}
use comp.Producers.Semaphores.{
  Thread, producing, insert_start, insert_wait_space, insert_wait_buffer, insert_post_items,
  insert_returned, consuming, remove_start, remove_wait_items, remove_wait_buffer,
  remove_post_space, remove_returned, working, exited, Variables, thread_step,
}
use comp.Producers.Semaphores.Place.{inside, InPlace, spaces, items}
use comp.Producers.Semaphores.Moving.{Steps, step_outside, step_enter, step_leave, step_working}

module _ (item : ℕ) (v : Variables) where
  module _ (tidy : v.buffer_sem ≡ 1 → Tidy v.shared) where
    insert_start_lem : (i : ℕ) → Steps item (insert_start i) v
    unfolding thread_step
    insert_start_lem i = elim (Bool-cases v.is_exiting) [
      | inl e ↦
          step_outside item v (insert_start i) (insert_returned i false) v (simp e) refl refl refl
            refl refl refl tidy
      | inr e ↦
          step_outside item v (insert_start i) (insert_wait_space i) v (simp e) refl refl refl refl
            refl refl tidy
    ]

    remove_start_lem : Steps item remove_start v
    unfolding thread_step
    remove_start_lem = elim (Bool-cases v.is_exiting) [
      | inl e ↦
          step_outside item v remove_start (remove_returned none) v (simp e) refl refl refl refl
            refl refl tidy
      | inr e ↦
          step_outside item v remove_start remove_wait_items v (simp e) refl refl refl refl refl
            refl tidy
    ]

    insert_wait_space_lem : (i : ℕ) → Steps item (insert_wait_space i) v
    unfolding thread_step
    insert_wait_space_lem i = elim (Bool-cases (v.space_sem == 0)) [
      | inl e ↦
          step_outside item v (insert_wait_space i) (insert_wait_space i) v (simp e) refl refl refl
            refl refl refl tidy
      | inr e ↦
          step_outside item v (insert_wait_space i) (insert_wait_buffer i)
            (record v { space_sem = v.space_sem - 1 }) (simp e) refl refl refl refl
            (ground (arith, e)) refl tidy
    ]

    remove_wait_items_lem : Steps item remove_wait_items v
    unfolding thread_step
    remove_wait_items_lem = elim (Bool-cases (v.items_sem == 0)) [
      | inl e ↦
          step_outside item v remove_wait_items remove_wait_items v (simp e) refl refl refl refl
            refl refl tidy
      | inr e ↦
          step_outside item v remove_wait_items remove_wait_buffer
            (record v { items_sem = v.items_sem - 1 }) (simp e) refl refl refl refl refl
            (ground (arith, e)) tidy
    ]

    insert_returned_lem :
        (i : ℕ) (is_inserted : Bool) → Steps item (insert_returned i is_inserted) v
    unfolding thread_step
    insert_returned_lem i true =
        step_outside item v (insert_returned i true) producing _ refl refl refl refl refl refl refl
          tidy
    insert_returned_lem i false = elim (Bool-cases v.is_exiting) [
      | inl e ↦
          step_outside item v (insert_returned i false) exited
            (record v { output = v.output ++ producer_exiting ∷ [] }) (simp e) refl refl refl refl
            refl refl tidy
      | inr e ↦
          step_outside item v (insert_returned i false) producing
            (record v { output = v.output ++ buffer_is_full ∷ [] }) (simp e) refl refl refl refl
            refl refl tidy
    ]

    remove_returned_lem : (result : Option ℕ) → Steps item (remove_returned result) v
    unfolding thread_step
    remove_returned_lem (some i) =
        step_outside item v (remove_returned (some i)) consuming _ refl refl refl refl refl refl
          refl tidy
    remove_returned_lem none = elim (Bool-cases v.is_exiting) [
      | inl e ↦
          step_outside item v (remove_returned none) exited
            (record v { output = v.output ++ consumer_exiting ∷ [] }) (simp e) refl refl refl refl
            refl refl tidy
      | inr e ↦
          step_outside item v (remove_returned none) consuming
            (record v { output = v.output ++ buffer_is_empty ∷ [] }) (simp e) refl refl refl refl
            refl refl tidy
    ]

    -- What a thread holds is there: the counts of the process bear on those of the thread.
    pub thread_step_lem :
        (t : Thread)
        → InPlace t v.shared
        → v.buffer_sem + inside t ≤ 1
        → spaces t ≤ (v.shared).buffer_space
        → (v.shared).buffer_space + items t ≤ buffer_size
        → Steps item t v
    unfolding thread_step
    thread_step_lem producing p le s n =
        step_outside item v producing (insert_start item) v refl refl refl refl refl refl refl tidy
    thread_step_lem (insert_start i) p le s n = insert_start_lem i
    thread_step_lem (insert_wait_space i) p le s n = insert_wait_space_lem i
    thread_step_lem (insert_wait_buffer i) p le s n =
        step_enter item v (insert_wait_buffer i) (inserting i) refl refl refl refl
          (omega (arith, le)) (λ t. (t, s)) tidy
    thread_step_lem (insert_post_items i) p le s n =
        step_outside item v (insert_post_items i) (insert_returned i true)
          (record v { items_sem = v.items_sem + 1 }) refl refl refl refl refl refl (omega arith)
          tidy
    thread_step_lem (insert_returned i is_inserted) p le s n = insert_returned_lem i is_inserted
    thread_step_lem consuming p le s n =
        step_outside item v consuming remove_start v refl refl refl refl refl refl refl tidy
    thread_step_lem remove_start p le s n = remove_start_lem
    thread_step_lem remove_wait_items p le s n = remove_wait_items_lem
    thread_step_lem remove_wait_buffer p le s n =
        step_enter item v remove_wait_buffer removing refl refl refl refl (omega (arith, le))
          (λ t. (t, omega (arith, n))) tidy
    thread_step_lem (remove_post_space i) p le s n =
        step_outside item v (remove_post_space i) (remove_returned (some i))
          (record v { space_sem = v.space_sem + 1 }) refl refl refl refl refl (omega arith) refl
          tidy
    thread_step_lem (remove_returned result) p le s n = remove_returned_lem result
    thread_step_lem (working (stored i)) p le s n =
        step_leave item v (stored i) (insert_post_items i) refl refl refl refl p
    thread_step_lem (working (fetched i)) p le s n =
        step_leave item v (fetched i) (remove_post_space i) refl refl refl refl p
    thread_step_lem (working (inserting i)) p le s n = step_working item v (inserting i) refl le p
    thread_step_lem (working (written i)) p le s n = step_working item v (written i) refl le p
    thread_step_lem (working removing) p le s n = step_working item v removing refl le p
    thread_step_lem (working (taken i pos)) p le s n = step_working item v (taken i pos) refl le p
    thread_step_lem (working (shifting i m pos)) p le s n =
        step_working item v (shifting i m pos) refl le p
    thread_step_lem exited p le s n =
        step_outside item v exited exited v refl refl refl refl refl refl refl tidy
