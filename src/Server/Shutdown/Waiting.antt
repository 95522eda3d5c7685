-- ===== src/Server/Shutdown/Waiting.antt =====
-- When the shutdown of project2/server.c never ends.
use comp.Base.{
  ℕ, ◌≡◌, ◌∙◌, sym, ap, subst, inl, inr, List, [], ◌∷◌, some, Bool, false, ◌==◌, Bool-cases, if-lem,
}
use comp.Server.Startup.{log_file_mutex, clients_count_mutex, clients_win_count_mutex}
use comp.Server.Shutdown.{
  Usage, locking, Process, lock, handler_step, Action, locks, unlocks, prints, counts_client,
  counts_win, has_lock, print_held, is_destroyed, with_mutex, act, Event, handler_steps, acts,
  goes_on_beside, act_beside, defined_step, step, run,
}

module _ (usage : Usage) (me : ℕ) where
  -- The handler waits for a mutex that its own thread has.
  pub record IsStuck (p : Process) : Type 0 where
    pub waits : p.handler ≡ locking
    pub held : p.holder ≡ some me

  act-IsStuck :
      (i : ℕ) (a : Action) (p : Process) → (i == me) ≡ false → IsStuck p → IsStuck (act i a p)
  unfolding act with_mutex print_held
  act-IsStuck i locks p ne h =
      if-lem IsStuck (is_destroyed log_file_mutex p.destroyed)
        (λ e. record { waits = h.waits; held = h.held })
        (λ e. record { waits = h.waits; held = simp h.held })
  act-IsStuck i unlocks p ne h =
      if-lem IsStuck (is_destroyed log_file_mutex p.destroyed)
        (λ e. record { waits = h.waits; held = h.held })
        (λ e. record { waits = h.waits; held = simp (h.held, ne) })
  act-IsStuck i (prints e) p ne h =
      if-lem IsStuck (has_lock i p.holder)
        (λ b.
          if-lem IsStuck p.is_log_open (λ o. record { waits = h.waits; held = h.held })
            (λ o. record { waits = h.waits; held = h.held }))
        (λ b. h)
  act-IsStuck i counts_client p ne h =
      if-lem IsStuck (is_destroyed clients_count_mutex p.destroyed)
        (λ e. record { waits = h.waits; held = h.held })
        (λ e. record { waits = h.waits; held = h.held })
  act-IsStuck i counts_win p ne h =
      if-lem IsStuck (is_destroyed clients_win_count_mutex p.destroyed)
        (λ e. record { waits = h.waits; held = h.held })
        (λ e. record { waits = h.waits; held = h.held })

  handler_step-IsStuck :
      (succeeds : Bool) (p : Process) → IsStuck p → handler_step usage me succeeds p.handler p ≡ p
  unfolding handler_step lock
  handler_step-IsStuck succeeds p h =
      ap (λ hd. handler_step usage me succeeds hd p) h.waits ∙ ap (λ o. lock me o p) h.held

  beside-IsStuck :
      (i : ℕ) (a : Action) (p : Process) → IsStuck p → IsStuck (act_beside usage me locking i a p)
  unfolding act_beside goes_on_beside
  beside-IsStuck i a p h = elim (Bool-cases (i == me)) [
    | inl e ↦ simp e h
    | inr e ↦ simp e (act-IsStuck i a p e h)
  ]

  defined_step-IsStuck : (e : Event) (p : Process) → IsStuck p → IsStuck (defined_step usage me e p)
  unfolding defined_step
  defined_step-IsStuck (handler_steps b) p h = subst IsStuck (sym (handler_step-IsStuck b p h)) h
  defined_step-IsStuck (acts i a) p h =
      subst (λ hd. IsStuck (act_beside usage me hd i a p)) (sym h.waits) (beside-IsStuck i a p h)

  step-IsStuck : (e : Event) (p : Process) → IsStuck p → IsStuck (step usage me e p)
  unfolding step
  step-IsStuck e p h = if-lem IsStuck p.is_defined (λ d. defined_step-IsStuck e p h) (λ d. h)

  -- A thread that is interrupted while it has the mutex of the log file waits for itself: whatever the other
  -- threads do, the handler never gets beyond the lock, and the server is not shut down.
  pub run-IsStuck : (es : List Event) (p : Process) → IsStuck p → IsStuck (run usage me es p)
  unfolding run
  run-IsStuck [] p h = h
  run-IsStuck (e ∷ es) p h = run-IsStuck es (step usage me e p) (step-IsStuck e p h)
