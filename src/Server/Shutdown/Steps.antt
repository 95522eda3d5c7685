-- ===== src/Server/Shutdown/Steps.antt =====
-- The steps of the handler in the shutdown of project2/server.c, from phase to phase.
use mathlib.Core.List.{append_assoc, append-nil}
use comp.Base.{
  ℕ, ◌≡◌, ◌∙◌, refl, sym, ap, subst, List, [], ◌∷◌, ◌++◌, Option, none, some, Bool, true, false,
  arith,
}
use comp.Server.{LogEntry, Shared}
use comp.Server.Shutdown.{
  Usage, ReportLine, shutdown_line, connected_line, guessed_line, user_line, kernel_line, peak_line,
  current_line, report_lines, Handler, returned, locking, reporting, unlocking, destroying, exited,
  Process, entry_of, lock, handler_step,
}
use comp.Server.Shutdown.Reports.{IsEntry, AreEntries, Since, Reported, AreEntries-Since}
use comp.Server.Shutdown.Phases.{Waits, Holds, Left}

module _ (usage : Usage) (me : ℕ) (first : Shared) where
  -- Where the handler is, and what then holds.
  abbrev pub Ends : Handler → Process → Type 0
  Ends returned p = ⊥
  Ends locking p = Waits usage me first p
  Ends (reporting left) p =
      (lines : List ReportLine) × (lines ++ left ≡ report_lines) × Holds usage me first lines true p
  Ends unlocking p = Holds usage me first report_lines false p
  Ends (destroying mutexes) p = Left usage me first report_lines p
  Ends (exited status) p = (status ≡ 0) × (p.is_defined ≡ true) × Left usage me first report_lines p

  entry_of-IsEntry :
      (now : Shared) (line : ReportLine)
      → Since first now
      → IsEntry usage first now line (entry_of usage now line)
  entry_of-IsEntry now shutdown_line s = refl
  entry_of-IsEntry now connected_line s = (now.clients_count, refl, s.clients, omega arith)
  entry_of-IsEntry now guessed_line s = (now.clients_win_count, refl, s.wins, omega arith)
  entry_of-IsEntry now user_line s = refl
  entry_of-IsEntry now kernel_line s = refl
  entry_of-IsEntry now peak_line s = refl
  entry_of-IsEntry now current_line s = refl

  AreEntries-append :
      (now : Shared) (lines : List ReportLine) (es : List LogEntry) (line : ReportLine)
      (e : LogEntry)
      → AreEntries usage first now lines es
      → IsEntry usage first now line e
      → AreEntries usage first now (lines ++ line ∷ []) (es ++ e ∷ [])
  AreEntries-append now [] [] line e h k = (k, tt)
  AreEntries-append now [] (d ∷ es) line e h k = absurd h
  AreEntries-append now (l ∷ lines) [] line e h k = absurd h
  AreEntries-append now (l ∷ lines) (d ∷ es) line e h k =
      (h.0, AreEntries-append now lines es line e h.1 k)

  Reported-append :
      (lines : List ReportLine) (now : Shared) (line : ReportLine)
      → Reported usage first lines now
      → Reported usage first
          (lines ++ line ∷ [])
          (record now { log = now.log ++ entry_of usage now line ∷ [] })
  Reported-append lines now line r =
      let e = entry_of usage now line in
      let later = record now { log = now.log ++ e ∷ [] } in
      record {
        before = r.before;
        entries = r.entries ++ e ∷ [];
        log = ap (λ l. l ++ e ∷ []) r.log ∙ append_assoc r.before r.entries (e ∷ []);
        are =
            AreEntries-Since usage first now later (lines ++ line ∷ []) (r.entries ++ e ∷ [])
              (record { clients = omega arith; wins = omega arith })
              (AreEntries-append now lines r.entries line e r.are
                (entry_of-IsEntry now line r.since));
        since = record { clients = r.since.clients; wins = r.since.wins };
      }

  lock-Ends :
      (o : Option ℕ) (p : Process)
      → p.handler ≡ locking
      → Waits usage me first p
      → Ends (lock me o p).handler (lock me o p)
  unfolding lock
  lock-Ends none p e h = (
    [],
    refl,
    record {
      held = refl;
      log_open = h.running.log_open;
      intact = h.running.intact;
      defined = h.running.defined;
      reported = record {
        before = (p.shared).log;
        entries = [];
        log = sym (append-nil (p.shared).log);
        are = tt;
        since = h.since;
      };
    },
  )
  lock-Ends (some j) p e h = subst (λ hd. Ends hd p) (sym e) h

  pub handler_step-Ends :
      (succeeds : Bool) (hd : Handler) (p : Process)
      → p.handler ≡ hd
      → p.is_defined ≡ true
      → Ends hd p
      → Ends (handler_step usage me succeeds hd p).handler (handler_step usage me succeeds hd p)
  unfolding handler_step
  handler_step-Ends b returned p e d k = absurd k
  handler_step-Ends b locking p e d k = lock-Ends p.holder p e k
  handler_step-Ends b (reporting []) p e d (lines, all, h) = record {
    held = h.held;
    log_open = refl;
    intact = h.intact;
    defined = h.defined;
    reported =
        subst (λ l. Reported usage first l p.shared) (sym (append-nil lines) ∙ all) h.reported;
  }
  handler_step-Ends b (reporting (line ∷ left)) p e d (lines, all, h) = (
    lines ++ line ∷ [],
    append_assoc lines (line ∷ []) left ∙ all,
    record {
      held = h.held;
      log_open = h.log_open;
      intact = h.intact;
      defined = h.defined;
      reported = Reported-append lines p.shared line h.reported;
    },
  )
  handler_step-Ends b unlocking p e d h = record { closed = h.log_open; reported = h.reported }
  handler_step-Ends b (destroying []) p e d h =
      (refl, d, record { closed = h.closed; reported = h.reported })
  handler_step-Ends b (destroying (m ∷ ms)) p e d h = record {
    closed = h.closed;
    reported = h.reported;
  }
  handler_step-Ends b (exited status) p e d k = subst (λ hd. Ends hd p) (sym e) k
