-- ===== src/Server/Shutdown/Reports.antt =====
-- The report at the end of the log of project2/server.c.
use comp.Base.{ℕ, ◌≤◌, ◌≡◌, ◌∙◌, List, [], ◌∷◌, ◌++◌, arith}
use comp.Server.{
  LogEntry, server_shutdown, clients_connected, clients_guessed, user_time, kernel_time,
  peak_memory, current_memory, Shared,
}
use comp.Server.Shutdown.{
  Usage, ReportLine, shutdown_line, connected_line, guessed_line, user_line, kernel_line, peak_line,
  current_line,
}

-- The counters have not gone back.
pub record Since (first now : Shared) : Type 0 where
  pub clients : first.clients_count ≤ now.clients_count
  pub wins : first.clients_win_count ≤ now.clients_win_count

module _ (usage : Usage) (first : Shared) where
  -- The line with a count that lies between those at the beginning and now.
  abbrev pub IsEntry : Shared → ReportLine → LogEntry → Type 0
  IsEntry now shutdown_line e = e ≡ server_shutdown
  IsEntry now connected_line e =
      (n : ℕ) × (e ≡ clients_connected n) × (first.clients_count ≤ n) × (n ≤ now.clients_count)
  IsEntry now guessed_line e =
      (n : ℕ) × (e ≡ clients_guessed n)
      × (first.clients_win_count ≤ n)
      × (n ≤ now.clients_win_count)
  IsEntry now user_line e = e ≡ user_time usage.user
  IsEntry now kernel_line e = e ≡ kernel_time usage.kernel
  IsEntry now peak_line e = e ≡ peak_memory usage.peak
  IsEntry now current_line e = e ≡ current_memory usage.current

  abbrev pub AreEntries : Shared → List ReportLine → List LogEntry → Type 0
  AreEntries now [] [] = Unit
  AreEntries now (line ∷ lines) (e ∷ es) = IsEntry now line e × AreEntries now lines es
  AreEntries now _ _ = ⊥

  -- These lines are the end of the log, one behind the other.
  pub record Reported (lines : List ReportLine) (now : Shared) : Type 0 where
    pub before : List LogEntry
    pub entries : List LogEntry
    pub log : now.log ≡ before ++ entries
    pub are : AreEntries now lines entries
    pub since : Since first now

  IsEntry-Since :
      (now later : Shared) (line : ReportLine) (e : LogEntry)
      → Since now later
      → IsEntry now line e
      → IsEntry later line e
  IsEntry-Since now later shutdown_line e s h = h
  IsEntry-Since now later connected_line e s (n, b, l, u) = (n, b, l, omega (arith, u, s.clients))
  IsEntry-Since now later guessed_line e s (n, b, l, u) = (n, b, l, omega (arith, u, s.wins))
  IsEntry-Since now later user_line e s h = h
  IsEntry-Since now later kernel_line e s h = h
  IsEntry-Since now later peak_line e s h = h
  IsEntry-Since now later current_line e s h = h

  pub AreEntries-Since :
      (now later : Shared) (lines : List ReportLine) (es : List LogEntry)
      → Since now later
      → AreEntries now lines es
      → AreEntries later lines es
  AreEntries-Since now later [] [] s h = h
  AreEntries-Since now later [] (e ∷ es) s h = absurd h
  AreEntries-Since now later (line ∷ lines) [] s h = absurd h
  AreEntries-Since now later (line ∷ lines) (e ∷ es) s h =
      (IsEntry-Since now later line e s h.0, AreEntries-Since now later lines es s h.1)

  Since-trans : (a b c : Shared) → Since a b → Since b c → Since a c
  Since-trans a b c s t = record {
    clients = omega (arith, s.clients, t.clients);
    wins = omega (arith, s.wins, t.wins);
  }

  pub Reported-Since :
      (lines : List ReportLine) (now later : Shared)
      → later.log ≡ now.log
      → Since now later
      → Reported lines now
      → Reported lines later
  Reported-Since lines now later e s r = record {
    before = r.before;
    entries = r.entries;
    log = e ∙ r.log;
    are = AreEntries-Since now later lines r.entries s r.are;
    since = Since-trans first now later r.since s;
  }
