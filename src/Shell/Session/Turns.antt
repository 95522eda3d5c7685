-- ===== src/Shell/Session/Turns.antt =====
-- A round of the loop of workshop/my-shell.c, under a system whose calls succeed.
use mathlib.Core.List.{append-nil}
use comp.Base.{
  ℕ, ◌+◌, ◌-◌, ◌*◌, ◌<◌, ◌≡◌, ◌≢◌, refl, sym, subst, inl, inr, List, [], ◌∷◌, ◌++◌, some, true, ltb,
  length, All, arith, ok, Bool-cases,
}
use comp.Shell.Words.{words}
use comp.Shell.Command.{Command, nothing, exit_shell, execute}
use comp.Shell.Command.Line.{typed, command_for, read_command_lem}
use comp.Shell.Session.{
  Waited, in_time, alarmed, Kernel, Session, Turn, continues, freestrarray, sighandler, wait_for,
  timeout_message, cmd_prompt, after_wait, after_fork, free_command, run_child, after_command,
  shell_round,
}

-- A system whose calls succeed; a child may end before the alarm or not.
pub record IsReliable {K : Type 0} (system : Kernel K) : Type 0 where
  pub signals : (k : K) → (system.signal k).0 ≡ true
  pub writes : (text : List ℕ) (k : K) → (system.write text k).0 ≡ true
  pub forks : (k : K) → (p : ℕ) × ((system.fork k).0 ≡ some p)
  pub kills : (p : ℕ) (k : K) → (system.kill p k).0 ≡ true

-- A line that can be typed.
abbrev pub IsLine : List ℕ → Type 0
IsLine line = All (λ c. c ≢ 10) line × All (λ c. c ≢ 0) line

abbrev pub command_line : List ℕ → Command
command_line line = command_for (words 32 line)

abbrev pub IsExit : Command → Type 0
IsExit (exit_shell cmdargv) = Unit
IsExit _ = ⊥

-- What the commands are that execute a file.
abbrev pub executions : List Command → List (List (List ℕ))
executions [] = []
executions (execute cmdargv ∷ rest) = cmdargv ∷ executions rest
executions (_ ∷ rest) = executions rest

-- The lines without a word.
abbrev pub empty_lines : List Command → ℕ
empty_lines [] = 0
empty_lines (nothing ∷ rest) = empty_lines rest + 1
empty_lines (_ ∷ rest) = empty_lines rest

freestrarray_lem :
    (cmdargv : List (List ℕ)) (blocks : ℕ)
    → freestrarray cmdargv blocks ≡ blocks - (length cmdargv + 1)
unfolding freestrarray
freestrarray_lem [] blocks = refl
freestrarray_lem (s ∷ cmdargv) blocks = omega (arith, freestrarray_lem cmdargv (blocks - 1))

module _ {K : Type 0} (system : Kernel K) (timeout : ℕ) (reliable : IsReliable system) where
  -- The loop goes on, with these commands executed and this many blocks not freed.
  pub record Goes (t : Turn (List ℕ) K) (stdin : List ℕ) (executed : List (List (List ℕ)))
      (unfreed : ℕ) : Type 0 where
    pub after : Session (List ℕ) K
    pub result : t ≡ continues after
    pub input : after.stdin ≡ stdin
    pub done : after.executed ≡ executed
    pub blocks : after.unfreed ≡ unfreed

  sighandler_lem :
      (s : Session (List ℕ) K)
      → Goes (sighandler typed system timeout s) s.stdin s.executed s.unfreed
  unfolding sighandler
  sighandler_lem s =
      let w = reliable.writes timeout_message s.kernel in
      let k = reliable.kills s.childpid (system.write timeout_message s.kernel).1 in
      record {
        after = record s {
          kernel = (system.kill s.childpid (system.write timeout_message s.kernel).1).1;
        };
        result = simp (w, k);
        input = refl;
        done = refl;
        blocks = refl;
      }

  continues_lem : (s : Session (List ℕ) K) → Goes (continues s) s.stdin s.executed s.unfreed
  continues_lem s = record { after = s; result = refl; input = refl; done = refl; blocks = refl }

  after_wait_lem :
      (waited : Waited) (s : Session (List ℕ) K)
      → Goes (after_wait typed system timeout waited s) s.stdin s.executed s.unfreed
  unfolding after_wait
  after_wait_lem in_time s = continues_lem s
  after_wait_lem alarmed s = elim (Bool-cases (ltb 0 timeout)) [
    | inl e ↦ rw e (sighandler_lem s)
    | inr e ↦ rw e (continues_lem s)
  ]

  free_command_lem :
      (cmdargv : List (List ℕ)) (t : Turn (List ℕ) K) (stdin : List ℕ)
      (executed : List (List (List ℕ))) (unfreed : ℕ)
      → Goes t stdin executed (unfreed + (2 + length cmdargv))
      → Goes (free_command typed system timeout cmdargv t) stdin executed unfreed
  unfolding free_command
  free_command_lem cmdargv t stdin executed unfreed g = record {
    after = record (g.after) { unfreed = freestrarray cmdargv ((g.after).unfreed - 1) };
    result = rw g.result refl;
    input = g.input;
    done = g.done;
    blocks = omega (arith, freestrarray_lem cmdargv ((g.after).unfreed - 1), g.blocks);
  }

  run_child_lem :
      (cmdargv : List (List ℕ)) (s : Session (List ℕ) K) (unfreed : ℕ)
      → s.unfreed ≡ unfreed + (2 + length cmdargv)
      → Goes (run_child typed system timeout cmdargv s) s.stdin (s.executed ++ cmdargv ∷ []) unfreed
  unfolding run_child after_fork wait_for
  run_child_lem cmdargv s unfreed e =
      let (p, f) = reliable.forks s.kernel in
      let k = (system.fork s.kernel).1 in
      let s' = record s { kernel = k; childpid = p; executed = s.executed ++ cmdargv ∷ [] } in
      let (waited, k') = system.wait p cmdargv timeout k in
      rw f (
        free_command_lem cmdargv
          (after_wait typed system timeout waited (record s' { kernel = k' })) s.stdin
          (s.executed ++ cmdargv ∷ []) unfreed
          (subst
            (λ n.
              Goes (after_wait typed system timeout waited (record s' { kernel = k' })) s.stdin
                (s.executed ++ cmdargv ∷ []) n)
            e (after_wait_lem waited (record s' { kernel = k' }))))

  pub after_command_lem :
      (command : Command) (s : Session (List ℕ) K)
      → (IsExit command → ⊥)
      → Goes
          (after_command typed system timeout command s)
          s.stdin
          (s.executed ++ executions (command ∷ []))
          (s.unfreed + 2 * empty_lines (command ∷ []))
  unfolding after_command
  after_command_lem nothing s h = record {
    after = record s { unfreed = s.unfreed + 2 };
    result = refl;
    input = refl;
    done = sym (append-nil s.executed);
    blocks = refl;
  }
  after_command_lem (exit_shell cmdargv) s h = absurd (h tt)
  after_command_lem (execute cmdargv) s h =
      run_child_lem cmdargv (record s { unfreed = s.unfreed + (2 + length cmdargv) })
        (s.unfreed + 2 * 0) (omega arith)

  pub shell_round_lem :
      (line rest : List ℕ) (fuel : ℕ) (s : Session (List ℕ) K)
      → IsLine line
      → length line < fuel
      → s.stdin ≡ line ++ 10 ∷ rest
      → shell_round typed system timeout fuel s
        ≡ ok (
            after_command typed system timeout
              (command_line line)
              (record s { kernel = (system.write cmd_prompt s.kernel).1; stdin = rest }))
  unfolding shell_round
  shell_round_lem line rest fuel s h lt e =
      simp (reliable.writes cmd_prompt s.kernel, e, read_command_lem line rest fuel h.0 h.1 lt)
