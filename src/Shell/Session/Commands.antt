-- ===== src/Shell/Session/Commands.antt =====
-- The commands that a session of workshop/my-shell.c executes.
use mathlib.Core.List.{append_assoc, append-nil}
use comp.Base.{
  ℕ, zero, suc, ◌+◌, ◌*◌, ◌<◌, ◌≡◌, ◌∙◌, refl, sym, ap, map, inl, inr, List, [], ◌∷◌, ◌++◌, ltb,
  length, All, arith, Outcome, ok, Bool-cases,
}
use comp.Shell.Command.{Command, nothing, exit_shell, execute}
use comp.Shell.Command.Line.{typed}
use comp.Shell.Session.{Kernel, Session, Turn, finishes, cmd_prompt, shell_loop, main}
use comp.Shell.Session.Turns.{
  IsReliable, IsExit, IsLine, command_line, executions, empty_lines, after_command_lem,
  shell_round_lem,
}

abbrev pub type_lines : List (List ℕ) → List ℕ → List ℕ
type_lines [] rest = rest
type_lines (line ∷ lines) rest = line ++ 10 ∷ type_lines lines rest

-- No line but the last says `exit`.
abbrev pub AreCommands : ℕ → List (List ℕ) → Type 0
AreCommands fuel lines =
    All (λ line. IsLine line × (length line < fuel) × (IsExit (command_line line) → ⊥)) lines

executions-cons :
    (command : Command) (rest : List Command)
    → executions (command ∷ []) ++ executions rest ≡ executions (command ∷ rest)
executions-cons nothing rest = refl
executions-cons (exit_shell cmdargv) rest = refl
executions-cons (execute cmdargv) rest = refl

empty_lines-cons :
    (command : Command) (rest : List Command)
    → empty_lines (command ∷ rest) ≡ empty_lines (command ∷ []) + empty_lines rest
empty_lines-cons nothing rest = omega arith
empty_lines-cons (exit_shell cmdargv) rest = omega arith
empty_lines-cons (execute cmdargv) rest = omega arith

-- The session has ended with the status 0.
pub record Finished {K : Type 0} (o : Outcome (Turn (List ℕ) K)) (s : Session (List ℕ) K)
    (rest : List ℕ) (typed_commands : List Command) (exit_argv : List (List ℕ)) : Type 0 where
  pub after : Session (List ℕ) K
  pub result : o ≡ ok (finishes 0 after)
  pub input : after.stdin ≡ rest
  pub done : after.executed ≡ s.executed ++ executions typed_commands
  pub blocks : after.unfreed ≡ s.unfreed + 2 * empty_lines typed_commands + (2 + length exit_argv)

module _ {K : Type 0} (system : Kernel K) (timeout : ℕ) (reliable : IsReliable system) where
  shell_loop_lem :
      (lines : List (List ℕ)) (last rest : List ℕ) (exit_argv : List (List ℕ)) (rounds fuel : ℕ)
      (s : Session (List ℕ) K)
      → AreCommands fuel lines
      → IsLine last
      → length last < fuel
      → command_line last ≡ exit_shell exit_argv
      → length lines < rounds
      → s.stdin ≡ type_lines lines (last ++ 10 ∷ rest)
      → Finished
          (shell_loop typed system timeout rounds fuel s)
          s
          rest
          (map command_line lines)
          exit_argv
  unfolding shell_loop
  shell_loop_lem lines last rest exit_argv zero fuel s h l lt x r e = absurd (omega (arith, r))
  shell_loop_lem [] last rest exit_argv (suc rounds) fuel s h l lt x r e = record {
    after = record s {
      kernel = (system.write cmd_prompt s.kernel).1;
      stdin = rest;
      unfreed = s.unfreed + (2 + length exit_argv);
    };
    result = rw (shell_round_lem system timeout reliable last rest fuel s l lt e, x) refl;
    input = refl;
    done = sym (append-nil s.executed);
    blocks = omega arith;
  }
  shell_loop_lem (line ∷ lines) last rest exit_argv (suc rounds) fuel s h l lt x r e =
      let next = type_lines lines (last ++ 10 ∷ rest) in
      let s' = record s { kernel = (system.write cmd_prompt s.kernel).1; stdin = next } in
      let g = after_command_lem system timeout reliable (command_line line) s' h.0.2 in
      let f =
        shell_loop_lem lines last rest exit_argv rounds fuel g.after h.1 l lt x (omega (arith, r))
          g.input in
      record {
        after = f.after;
        result =
            rw (shell_round_lem system timeout reliable line next fuel s h.0.0 h.0.1 e, g.result)
              f.result;
        input = f.input;
        done =
            f.done
            ∙ ap (λ l. l ++ executions (map command_line lines)) g.done
            ∙ append_assoc s.executed (executions (command_line line ∷ []))
                (executions (map command_line lines))
            ∙ ap (λ l. s.executed ++ l)
                (executions-cons (command_line line) (map command_line lines));
        blocks = omega (
          arith,
          f.blocks,
          g.blocks,
          empty_lines-cons (command_line line) (map command_line lines),
        );
      }

  -- While the calls of the system succeed, a session executes the commands that are typed, in their order and
  -- each with its words, whether children time out or not, up to the first line that says `exit`, and
  -- then ends with the status 0; what is typed behind that line is left. Of each line without a word two blocks
  -- of memory are never freed, of each command that is executed all are, and of the line that says
  -- `exit` two blocks and one for each of its words are left when the shell ends.
  pub main-Finished :
      (lines : List (List ℕ)) (last rest : List ℕ) (exit_argv : List (List ℕ)) (rounds fuel : ℕ)
      (s : Session (List ℕ) K)
      → AreCommands fuel lines
      → IsLine last
      → length last < fuel
      → command_line last ≡ exit_shell exit_argv
      → length lines < rounds
      → s.stdin ≡ type_lines lines (last ++ 10 ∷ rest)
      → Finished (main typed system timeout rounds fuel s) s rest (map command_line lines) exit_argv
  unfolding main
  main-Finished lines last rest exit_argv rounds fuel s h l lt x r e =
      elim (Bool-cases (ltb 0 timeout)) [
        | inl set ↦
            let f =
              shell_loop_lem lines last rest exit_argv rounds fuel
                (record s { kernel = (system.signal s.kernel).1 }) h l lt x r e in
            record {
              after = f.after;
              result = rw (set, reliable.signals s.kernel) f.result;
              input = f.input;
              done = f.done;
              blocks = f.blocks;
            }
        | inr unset ↦
            let f = shell_loop_lem lines last rest exit_argv rounds fuel s h l lt x r e in
            record {
              after = f.after;
              result = rw unset f.result;
              input = f.input;
              done = f.done;
              blocks = f.blocks;
            }
      ]
