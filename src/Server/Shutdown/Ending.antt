-- ===== src/Server/Shutdown/Ending.antt =====
-- How the shutdown of project2/server.c ends.
use comp.Base.{
  ℕ, ◌≡◌, ◌≢◌, ◌⊎◌, refl, sym, subst, inl, inr, List, [], ◌∷◌, some, Bool, true, false, ◌==◌,
  if◌then◌else◌, arith, Bool-cases, if-lem,
}
use comp.Server.{Shared}
use comp.Server.Startup.{log_file_mutex, clients_count_mutex, clients_win_count_mutex}
use comp.Server.Shutdown.{
  sigint, sigterm, Usage, report_lines, Handler, returned, locking, reporting, unlocking,
  destroying, exited, Process, sig_handler, Action, locks, unlocks, prints, counts_client,
  counts_win, print_held, has_lock, is_destroyed, with_mutex, act, goes_on_beside, Event,
  handler_steps, acts, act_beside, defined_step, step, run,
}
use comp.Server.Shutdown.Phases.{IsRunning, Waits, act-Waits, act-Holds, act-Left}
use comp.Server.Shutdown.Exit.{can_end}
use comp.Server.Shutdown.Steps.{Ends, handler_step-Ends}

module _ (usage : Usage) (me : ℕ) where
  other_thread : (b : Bool) → (if b then false else true) ≡ true → b ≡ false
  other_thread true e = cc
  other_thread false e = refl

  abbrev At : Handler → Process → Type 0
  At hd p = p.handler ≡ hd

  act-handler : (i : ℕ) (a : Action) (p : Process) → At p.handler (act i a p)
  unfolding act print_held with_mutex
  act-handler i locks p =
      if-lem (At p.handler) (is_destroyed log_file_mutex p.destroyed) (λ b. refl) (λ b. refl)
  act-handler i unlocks p =
      if-lem (At p.handler) (is_destroyed log_file_mutex p.destroyed) (λ b. refl) (λ b. refl)
  act-handler i (prints e) p =
      if-lem (At p.handler) (has_lock i p.holder)
        (λ b. if-lem (At p.handler) p.is_log_open (λ o. refl) (λ o. refl)) (λ b. refl)
  act-handler i counts_client p =
      if-lem (At p.handler) (is_destroyed clients_count_mutex p.destroyed) (λ b. refl) (λ b. refl)
  act-handler i counts_win p =
      if-lem (At p.handler) (is_destroyed clients_win_count_mutex p.destroyed) (λ b. refl)
        (λ b. refl)

  module _ (first : Shared) where
    act-Ends :
        (hd : Handler) (i : ℕ) (a : Action) (p : Process)
        → goes_on_beside me hd i ≡ true
        → Ends usage me first hd p
        → Ends usage me first hd (act i a p)
    unfolding goes_on_beside
    act-Ends returned i a p b k = absurd k
    act-Ends locking i a p b k = act-Waits usage me first i a p (other_thread (i == me) b) k
    act-Ends (reporting left) i a p b (lines, all, k) =
        (lines, all, act-Holds usage me first lines true i a p (other_thread (i == me) b) k)
    act-Ends unlocking i a p b k =
        act-Holds usage me first report_lines false i a p (other_thread (i == me) b) k
    act-Ends (destroying mutexes) i a p b k = act-Left usage me first report_lines i a p k
    act-Ends (exited status) i a p b k = cc

    abbrev EndsNow : Process → Type 0
    EndsNow p = Ends usage me first p.handler p

    step-Ends : (e : Event) (p : Process) → EndsNow p → EndsNow (step usage me e p)
    unfolding step defined_step act_beside
    step-Ends (handler_steps b) p k =
        if-lem EndsNow p.is_defined (λ d. handler_step-Ends usage me first b p.handler p refl d k)
          (λ d. k)
    step-Ends (acts i a) p k =
        if-lem EndsNow p.is_defined
          (λ d.
            if-lem EndsNow (goes_on_beside me p.handler i)
              (λ b.
                subst (λ hd. Ends usage me first hd (act i a p)) (sym (act-handler i a p))
                  (act-Ends p.handler i a p b k))
              (λ b. k))
          (λ d. k)

    run-Ends : (es : List Event) (p : Process) → EndsNow p → EndsNow (run usage me es p)
    unfolding run
    run-Ends [] p k = k
    run-Ends (e ∷ es) p k = run-Ends es (step usage me e p) (step-Ends e p k)

  signalled :
      (sig_number : ℕ) (p : Process)
      → (sig_number ≡ sigint) ⊎ (sig_number ≡ sigterm)
      → IsRunning p
      → p.holder ≢ some me
      → Ends usage me p.shared (sig_handler sig_number p).handler (sig_handler sig_number p)
  unfolding sig_handler
  signalled sig_number p h r k =
      let running : IsRunning (record p { is_listening = false; handler = locking }) = record {
        log_open = r.log_open;
        intact = r.intact;
        defined = r.defined;
      } in
      let waits : Waits usage me p.shared (record p { is_listening = false; handler = locking }) =
        record {
          other = k;
          running = running;
          since = record { clients = omega arith; wins = omega arith };
        } in
      elim h [ inl e ↦ rw e waits | inr e ↦ rw e waits ]

  -- SIGINT or SIGTERM interrupts a thread that does not have the mutex of the log file, while the file is open
  -- and no mutex is destroyed. Whatever the threads do then, one step of one of them or of the handler after
  -- the other: the handler waits for a mutex that another thread has or has left; or it has the mutex, and
  -- the last lines of the log are those of the report that it has printed so far, or all of them, none in
  -- the midst of what a thread writes and with counts between those at the signal and those of now; or it
  -- has left the mutex, or has ended the process with the status 0, and the whole report is still the end
  -- of the log, the file being closed. From there, unless a thread has used the closed file or a destroyed
  -- mutex, which none does before the handler has left the mutex, the process can be brought to its end
  -- by exit(0).
  pub sig_handler-Ends :
      (sig_number : ℕ) (p : Process) (es : List Event)
      → (sig_number ≡ sigint) ⊎ (sig_number ≡ sigterm)
      → IsRunning p
      → p.holder ≢ some me
      → Ends usage me p.shared
          (run usage me es (sig_handler sig_number p)).handler
          (run usage me es (sig_handler sig_number p))
        × (((run usage me es (sig_handler sig_number p)).is_defined ≡ false)
            ⊎ ((more : List Event) × ((run usage me more
                    (run usage me es (sig_handler sig_number p))).handler
                  ≡ exited 0)))
  sig_handler-Ends sig_number p es h r k =
      let q = run usage me es (sig_handler sig_number p) in
      let ends = run-Ends p.shared es (sig_handler sig_number p) (signalled sig_number p h r k) in
      elim (Bool-cases q.is_defined) [
        | inl d ↦ (ends, inr (can_end usage me p.shared q.handler q refl d ends))
        | inr d ↦ (ends, inl d)
      ]
