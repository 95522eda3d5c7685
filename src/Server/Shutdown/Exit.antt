-- ===== src/Server/Shutdown/Exit.antt =====
-- How the handler of project2/server.c comes to exit() from each phase.
use comp.Base.{
  ℕ, ◌≡◌, ◌≢◌, ◌∙◌, refl, sym, ap, subst, inl, inr, List, [], ◌∷◌, none, some, true, false, ◌==◌,
  if◌then◌else◌, arith, if-lem, Option-cases,
}
use comp.Server.{Shared}
use comp.Server.Startup.{Mutex, log_file_mutex}
use comp.Server.Shutdown.{
  Usage, ReportLine, report_lines, destroyed_mutexes, Handler, returned, locking, reporting,
  unlocking, destroying, exited, Process, lock, handler_step, unlocks, leave_lock, act,
  goes_on_beside, Event, handler_steps, acts, act_beside, defined_step, step, run,
}
use comp.Server.Shutdown.Phases.{IsRunning, true-false, with_mutex-intact}
use comp.Server.Shutdown.Steps.{Ends}

module _ (usage : Usage) (me : ℕ) where
  -- Some steps end the process.
  abbrev pub CanEnd : Process → Type 0
  CanEnd p = (es : List Event) × ((run usage me es p).handler ≡ exited 0)

  goes :
      (e : Event) (p : Process)
      → p.is_defined ≡ true
      → CanEnd (defined_step usage me e p)
      → CanEnd p
  unfolding run step
  goes e p d (es, h) = (
    e ∷ es,
    ap (λ b. (run usage me es (if b then defined_step usage me e p else p)).handler) d ∙ h,
  )

  handler_goes :
      (hd : Handler) (p : Process)
      → p.handler ≡ hd
      → p.is_defined ≡ true
      → CanEnd (handler_step usage me true hd p)
      → CanEnd p
  unfolding defined_step
  handler_goes hd p e d h =
      goes (handler_steps true) p d
        (subst (λ hd. CanEnd (handler_step usage me true hd p)) (sym e) h)

  end_destroying :
      (mutexes : List Mutex) (p : Process)
      → p.handler ≡ destroying mutexes
      → p.is_defined ≡ true
      → CanEnd p
  unfolding handler_step run
  end_destroying [] p e d = handler_goes (destroying []) p e d ([], refl)
  end_destroying (m ∷ ms) p e d =
      handler_goes (destroying (m ∷ ms)) p e d
        (end_destroying ms (handler_step usage me true (destroying (m ∷ ms)) p) refl d)

  end_unlocking : (p : Process) → p.handler ≡ unlocking → p.is_defined ≡ true → CanEnd p
  unfolding handler_step
  end_unlocking p e d =
      handler_goes unlocking p e d
        (end_destroying destroyed_mutexes (handler_step usage me true unlocking p) refl d)

  end_reporting :
      (left : List ReportLine) (p : Process)
      → p.handler ≡ reporting left
      → p.is_defined ≡ true
      → CanEnd p
  unfolding handler_step
  end_reporting [] p e d =
      handler_goes (reporting []) p e d
        (end_unlocking (handler_step usage me true (reporting []) p) refl d)
  end_reporting (line ∷ left) p e d =
      handler_goes (reporting (line ∷ left)) p e d
        (end_reporting left (handler_step usage me true (reporting (line ∷ left)) p) refl d)

  end_free : (p : Process) → p.handler ≡ locking → p.is_defined ≡ true → p.holder ≡ none → CanEnd p
  unfolding handler_step lock
  end_free p e d f = handler_goes locking p e d (
      subst (λ o. CanEnd (lock me o p)) (sym f)
        (end_reporting report_lines (lock me none p) refl d))

  end_held :
      (j : ℕ) (p : Process)
      → p.handler ≡ locking
      → p.holder ≡ some j
      → j ≢ me
      → IsRunning p
      → CanEnd p
  unfolding act defined_step act_beside goes_on_beside leave_lock
  end_held j p e f ne r =
      let other : (if j == me then false else true) ≡ true = ground (arith, ne) in
      let self : (j == j) ≡ true = ground arith in
      goes (acts j unlocks) p r.defined (
        subst (λ hd. CanEnd (act_beside usage me hd j unlocks p)) (sym e)
          (if-lem CanEnd (if j == me then false else true)
            (λ b.
              with_mutex-intact CanEnd log_file_mutex p r.intact (
                end_free (record p { holder = leave_lock j p.holder }) e r.defined
                  (simp (f, self))))
            (λ b. absurd (true-false (sym other ∙ b)))))

  pub can_end :
      (first : Shared) (hd : Handler) (p : Process)
      → p.handler ≡ hd
      → p.is_defined ≡ true
      → Ends usage me first hd p
      → CanEnd p
  unfolding run
  can_end first returned p e d k = absurd k
  can_end first locking p e d k = elim (Option-cases p.holder) [
    | inl f ↦ end_free p e d f
    | inr (j, f) ↦ end_held j p e f (λ same. k.other (f ∙ ap some same)) k.running
  ]
  can_end first (reporting left) p e d k = end_reporting left p e d
  can_end first unlocking p e d k = end_unlocking p e d
  can_end first (destroying mutexes) p e d k = end_destroying mutexes p e d
  can_end first (exited status) p e d k = ([], e ∙ ap exited k.0)
