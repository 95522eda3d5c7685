-- ===== src/Server/Shutdown/Phases.antt =====
-- The phases of the shutdown of project2/server.c, and what the other threads leave as it is in each.
use comp.Base.{
  ℕ, ◌+◌, ◌≡◌, ◌≢◌, ◌∙◌, refl, sym, ap, List, [], Option, none, some, Bool, true, false, ◌==◌,
  arith, Bool-cases, if-lem, inl, inr,
}
use comp.Server.{Shared}
use comp.Server.Startup.{Mutex, log_file_mutex, clients_count_mutex, clients_win_count_mutex}
use comp.Server.Shutdown.Reports.{Since, Reported, Reported-Since}
use comp.Server.Shutdown.{
  Usage, ReportLine, Process, Action, locks, unlocks, prints, counts_client, counts_win, has_lock,
  take_lock, leave_lock, is_destroyed, with_mutex, print_held, act,
}

-- The server as it runs: the file is open, and no mutex is destroyed.
pub record IsRunning (p : Process) : Type 0 where
  pub log_open : p.is_log_open ≡ true
  pub intact : p.destroyed ≡ []
  pub defined : p.is_defined ≡ true

pub true-false : true ≡ false → ⊥
true-false e = cc

not_destroyed :
    (mutex : Mutex) (p : Process) → p.destroyed ≡ [] → is_destroyed mutex p.destroyed ≡ false
unfolding is_destroyed
not_destroyed mutex p e = ap (is_destroyed mutex) e

pub with_mutex-intact :
    (P : Process → Type 0) (mutex : Mutex) (p : Process) {p' : Process}
    → p.destroyed ≡ []
    → P p'
    → P (with_mutex mutex p p')
unfolding with_mutex
with_mutex-intact P mutex p e h =
    if-lem P (is_destroyed mutex p.destroyed)
      (λ b. absurd (true-false (sym b ∙ not_destroyed mutex p e))) (λ b. h)

module _ (usage : Usage) (me : ℕ) (first : Shared) where
  -- The handler waits for a mutex that its thread does not have.
  pub record Waits (p : Process) : Type 0 where
    pub other : p.holder ≢ some me
    pub running : IsRunning p
    pub since : Since first p.shared

  -- It has the mutex, and has printed these lines.
  pub record Holds (lines : List ReportLine) (is_open : Bool) (p : Process) : Type 0 where
    pub held : p.holder ≡ some me
    pub log_open : p.is_log_open ≡ is_open
    pub intact : p.destroyed ≡ []
    pub defined : p.is_defined ≡ true
    pub reported : Reported usage first lines p.shared

  -- It has left the mutex, with the file closed behind these lines.
  pub record Left (lines : List ReportLine) (p : Process) : Type 0 where
    pub closed : p.is_log_open ≡ false
    pub reported : Reported usage first lines p.shared

  take_lock-other :
      (i : ℕ) (o : Option ℕ) → (i == me) ≡ false → o ≢ some me → take_lock i o ≢ some me
  unfolding take_lock
  take_lock-other i none ne k = λ e. ground (arith, ne, e)
  take_lock-other i (some j) ne k = k

  leave_lock-other : (i : ℕ) (o : Option ℕ) → o ≢ some me → leave_lock i o ≢ some me
  unfolding leave_lock
  leave_lock-other i o k = elim (Bool-cases (has_lock i o)) [
    | inl e ↦ rw e (λ f. cc)
    | inr e ↦ rw e k
  ]

  IsRunning-same :
      (p p' : Process)
      → p'.is_log_open ≡ p.is_log_open
      → p'.destroyed ≡ p.destroyed
      → p'.is_defined ≡ p.is_defined
      → IsRunning p
      → IsRunning p'
  IsRunning-same p p' a b c h = record {
    log_open = a ∙ h.log_open;
    intact = b ∙ h.intact;
    defined = c ∙ h.defined;
  }

  pub act-Waits :
      (i : ℕ) (a : Action) (p : Process) → (i == me) ≡ false → Waits p → Waits (act i a p)
  unfolding act print_held
  act-Waits i locks p ne h = with_mutex-intact Waits log_file_mutex p h.running.intact (record {
    other = take_lock-other i p.holder ne h.other;
    running = IsRunning-same p _ refl refl refl h.running;
    since = h.since;
  })
  act-Waits i unlocks p ne h = with_mutex-intact Waits log_file_mutex p h.running.intact (record {
    other = leave_lock-other i p.holder h.other;
    running = IsRunning-same p _ refl refl refl h.running;
    since = h.since;
  })
  act-Waits i (prints e) p ne h =
      if-lem Waits (has_lock i p.holder)
        (λ b.
          if-lem Waits p.is_log_open
            (λ o. record {
              other = h.other;
              running = IsRunning-same p _ refl refl refl h.running;
              since = record { clients = h.since.clients; wins = h.since.wins };
            })
            (λ o. absurd (true-false (sym h.running.log_open ∙ o))))
        (λ b. h)
  act-Waits i counts_client p ne h =
      with_mutex-intact Waits clients_count_mutex p h.running.intact (record {
        other = h.other;
        running = IsRunning-same p _ refl refl refl h.running;
        since = record { clients = omega (arith, h.since.clients); wins = h.since.wins };
      })
  act-Waits i counts_win p ne h =
      with_mutex-intact Waits clients_win_count_mutex p h.running.intact (record {
        other = h.other;
        running = IsRunning-same p _ refl refl refl h.running;
        since = record { clients = h.since.clients; wins = omega (arith, h.since.wins) };
      })

  one_client :
      (lines : List ReportLine) (s : Shared)
      → Reported usage first lines s
      → Reported usage first lines (record s { clients_count = s.clients_count + 1 })
  one_client lines s =
      Reported-Since usage first lines s _ refl
        (record { clients = omega arith; wins = omega arith })

  one_win :
      (lines : List ReportLine) (s : Shared)
      → Reported usage first lines s
      → Reported usage first lines (record s { clients_win_count = s.clients_win_count + 1 })
  one_win lines s =
      Reported-Since usage first lines s _ refl
        (record { clients = omega arith; wins = omega arith })

  no_lock : (i : ℕ) (o : Option ℕ) → (i == me) ≡ false → o ≡ some me → has_lock i o ≡ true → ⊥
  unfolding has_lock
  no_lock i o ne e b = true-false (sym b ∙ ap (has_lock i) e ∙ ne)

  pub act-Holds :
      (lines : List ReportLine) (is_open : Bool) (i : ℕ) (a : Action) (p : Process)
      → (i == me) ≡ false
      → Holds lines is_open p
      → Holds lines is_open (act i a p)
  unfolding act print_held take_lock leave_lock has_lock
  act-Holds lines is_open i locks p ne h =
      with_mutex-intact (Holds lines is_open) log_file_mutex p h.intact (record {
        held = simp h.held;
        log_open = h.log_open;
        intact = h.intact;
        defined = h.defined;
        reported = h.reported;
      })
  act-Holds lines is_open i unlocks p ne h =
      with_mutex-intact (Holds lines is_open) log_file_mutex p h.intact (record {
        held = simp (h.held, ne);
        log_open = h.log_open;
        intact = h.intact;
        defined = h.defined;
        reported = h.reported;
      })
  act-Holds lines is_open i (prints e) p ne h =
      if-lem (Holds lines is_open) (has_lock i p.holder)
        (λ b. absurd (no_lock i p.holder ne h.held b)) (λ b. h)
  act-Holds lines is_open i counts_client p ne h =
      with_mutex-intact (Holds lines is_open) clients_count_mutex p h.intact (record {
        held = h.held;
        log_open = h.log_open;
        intact = h.intact;
        defined = h.defined;
        reported = one_client lines p.shared h.reported;
      })
  act-Holds lines is_open i counts_win p ne h =
      with_mutex-intact (Holds lines is_open) clients_win_count_mutex p h.intact (record {
        held = h.held;
        log_open = h.log_open;
        intact = h.intact;
        defined = h.defined;
        reported = one_win lines p.shared h.reported;
      })

  with_mutex-Left :
      (lines : List ReportLine) (mutex : Mutex) (p : Process) {p' : Process}
      → Left lines p
      → Left lines p'
      → Left lines (with_mutex mutex p p')
  unfolding with_mutex
  with_mutex-Left lines mutex p h k =
      if-lem (Left lines) (is_destroyed mutex p.destroyed)
        (λ b. record { closed = h.closed; reported = h.reported }) (λ b. k)

  pub act-Left :
      (lines : List ReportLine) (i : ℕ) (a : Action) (p : Process)
      → Left lines p
      → Left lines (act i a p)
  unfolding act print_held
  act-Left lines i locks p h =
      with_mutex-Left lines log_file_mutex p h (record { closed = h.closed; reported = h.reported })
  act-Left lines i unlocks p h =
      with_mutex-Left lines log_file_mutex p h (record { closed = h.closed; reported = h.reported })
  act-Left lines i (prints e) p h =
      if-lem (Left lines) (has_lock i p.holder)
        (λ b.
          if-lem (Left lines) p.is_log_open (λ o. absurd (true-false (sym o ∙ h.closed)))
            (λ o. record { closed = h.closed; reported = h.reported }))
        (λ b. h)
  act-Left lines i counts_client p h =
      with_mutex-Left lines clients_count_mutex p h
        (record { closed = h.closed; reported = one_client lines p.shared h.reported })
  act-Left lines i counts_win p h =
      with_mutex-Left lines clients_win_count_mutex p h
        (record { closed = h.closed; reported = one_win lines p.shared h.reported })
