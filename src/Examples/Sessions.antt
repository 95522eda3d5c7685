-- ===== src/Examples/Sessions.antt =====
-- Instances of the theorem about a session of workshop/my-shell.c.
use comp.Base.{ℕ, ◌+◌, refl, List, [], ◌∷◌, ◌++◌, some, true, arith, map}
use comp.Shell.Command.Line.{typed}
use comp.Shell.Words.{words}
use comp.Shell.Session.{Kernel, alarmed, Session, main}
use comp.Shell.Session.Turns.{IsReliable, command_line}
use comp.Shell.Session.Commands.{type_lines, AreCommands, Finished, main-Finished}

-- Process ids are counted up, and every child times out.
abbrev kernel : Kernel ℕ
kernel = record {
  signal = λ k. (true, k);
  write = λ text k. (true, k);
  fork = λ k. (some (k + 1), k + 1);
  wait = λ pid cmdargv timeout k. (alarmed, k);
  kill = λ pid k. (true, k);
}

kernel-IsReliable : IsReliable kernel
kernel-IsReliable = record {
  signals = λ k. refl;
  writes = λ text k. refl;
  forks = λ k. (k + 1, refl);
  kills = λ pid k. refl;
}

-- `l x`, and a line of a space.
abbrev lines : List (List ℕ)
lines = (108 ∷ 32 ∷ 120 ∷ []) ∷ (32 ∷ []) ∷ []

abbrev exit_line : List ℕ
exit_line = 101 ∷ 120 ∷ 105 ∷ 116 ∷ []

abbrev exit_words : List (List ℕ)
exit_words = (exit_line ++ 0 ∷ []) ∷ []

abbrev session : Session (List ℕ) ℕ
session = record {
  stdin = type_lines lines (exit_line ++ 10 ∷ 7 ∷ []);
  kernel = 40;
  childpid = 0;
  executed = [];
  unfreed = 0;
}

lines-AreCommands : AreCommands 9 lines
unfolding words
lines-AreCommands = (
  ((omega arith, omega arith), omega arith, (λ e. e)),
  (((omega arith, omega arith), omega arith, (λ e. e)), tt),
)

main-Finished_example :
    Finished (main typed kernel 3 4 9 session) session (7 ∷ []) (map command_line lines) exit_words
unfolding words
main-Finished_example =
    main-Finished kernel 3 kernel-IsReliable lines exit_line (7 ∷ []) exit_words 4 9 session
      lines-AreCommands (omega arith, omega arith) (omega arith) refl (omega arith) refl
