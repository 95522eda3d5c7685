-- ===== src/Shell/Session.antt =====
-- workshop/my-shell.c, main(): the loop that reads commands and has them executed by child processes, with
-- the handler of the signal of the timeout. The calls of the system are parameters.
pub mod Turns
pub mod Commands
use comp.Base.{
  ℕ, zero, suc, ◌+◌, ◌-◌, List, [], ◌∷◌, ◌++◌, Option, none, some, Bool, true, false, ltb,
  if◌then◌else◌, length, Outcome, ok, ◌>>=◌,
}
use comp.Shell.Command.{
  Reading, Command, nothing, exit_shell, execute, Round, commands, ends, read_command,
}

-- `> `.
abbrev pub cmd_prompt : List ℕ
cmd_prompt = 62 ∷ 32 ∷ []

-- `Process timed out`, with a newline.
abbrev pub timeout_message : List ℕ
timeout_message =
    80 ∷ 114 ∷ 111 ∷ 99 ∷ 101 ∷ 115 ∷ 115 ∷ 32 ∷ 116 ∷ 105 ∷ 109 ∷ 101 ∷ 100 ∷ 32 ∷ 111 ∷ 117 ∷ 116
    ∷ 10 ∷ []

-- wait() for the child: it ended before the alarm, or the alarm came first.
pub data Waited : Type 0 where
  in_time : Waited
  alarmed : Waited

-- The system behind the shell.
pub record Kernel (K : Type 0) : Type 0 where
  pub signal : K → Bool × K
  pub write : List ℕ → K → Bool × K
  pub fork : K → Option ℕ × K
  pub wait : ℕ → List (List ℕ) → ℕ → K → Waited × K
  pub kill : ℕ → K → Bool × K

-- `executed` has the arguments of the calls of execve() in the children, `unfreed` counts the blocks of
-- memory that the shell has allocated and not freed.
pub record Session (I K : Type 0) : Type 0 where
  pub stdin : I
  pub kernel : K
  pub childpid : ℕ
  pub executed : List (List (List ℕ))
  pub unfreed : ℕ

-- The loop goes on, or the shell ends with a status.
pub data Turn (I K : Type 0) : Type 0 where
  continues : Session I K → Turn I K
  finishes : ℕ → Session I K → Turn I K

-- The blocks that are left when each string of the array and the array are freed.
pub freestrarray : List (List ℕ) → ℕ → ℕ
freestrarray [] blocks = blocks - 1
freestrarray (s ∷ strarray) blocks = freestrarray strarray (blocks - 1)

module _ {I K : Type 0} (read : I → Reading × I) (system : Kernel K) (timeout : ℕ) where
  -- The child is killed, and is no longer waited for then.
  pub sighandler : Session I K → Turn I K
  sighandler s =
      let (written, k) = system.write timeout_message s.kernel in
      let (killed, k') = system.kill s.childpid k in
      if written
      then (if killed
          then continues (record s { kernel = k' })
          else finishes 1 (record s { kernel = k' }))
      else finishes 1 (record s { kernel = k })

  -- The handler runs only where a timeout has set the alarm.
  pub after_wait : Waited → Session I K → Turn I K
  unfolding sighandler
  after_wait in_time s = continues s
  after_wait alarmed s = if ltb 0 timeout then sighandler s else continues s

  pub wait_for : List (List ℕ) → Session I K → Turn I K
  unfolding after_wait
  wait_for cmdargv s =
      let (waited, k) = system.wait s.childpid cmdargv timeout s.kernel in
      after_wait waited (record s { kernel = k })

  -- The memory of a command is freed.
  pub free_command : List (List ℕ) → Turn I K → Turn I K
  unfolding freestrarray
  free_command cmdargv (continues s) =
      continues (record s { unfreed = freestrarray cmdargv (s.unfreed - 1) })
  free_command cmdargv (finishes status s) = finishes status s

  -- The child executes the command, and the parent waits for it.
  pub after_fork : List (List ℕ) → Option ℕ → Session I K → Turn I K
  unfolding wait_for free_command
  after_fork cmdargv none s = finishes 1 s
  after_fork cmdargv (some pid) s =
      free_command cmdargv
        (wait_for cmdargv (record s { childpid = pid; executed = s.executed ++ cmdargv ∷ [] }))

  pub run_child : List (List ℕ) → Session I K → Turn I K
  unfolding after_fork
  run_child cmdargv s =
      let (pid, k) = system.fork s.kernel in after_fork cmdargv pid (record s { kernel = k })

  -- A command comes with two blocks, for its string and for the array of its words, and one for each word.
  pub after_command : Command → Session I K → Turn I K
  unfolding run_child
  after_command nothing s = continues (record s { unfreed = s.unfreed + 2 })
  after_command (exit_shell cmdargv) s =
      finishes 0 (record s { unfreed = s.unfreed + (2 + length cmdargv) })
  after_command (execute cmdargv) s =
      run_child cmdargv (record s { unfreed = s.unfreed + (2 + length cmdargv) })

  pub after_read : Session I K → Round I → Turn I K
  unfolding after_command
  after_read s ends = finishes 1 s
  after_read s (commands command stdin) = after_command command (record s { stdin = stdin })

  -- A round of the loop; `fuel` is for the reading of a line.
  pub shell_round : ℕ → Session I K → Outcome (Turn I K)
  unfolding after_read
  shell_round fuel s =
      let (written, k) = system.write cmd_prompt s.kernel in
      let s' = record s { kernel = k } in
      if written
      then (do round ← read_command read fuel s.stdin; ok (after_read s' round))
      else ok (finishes 1 s')

  pub shell_loop : ℕ → ℕ → Session I K → Outcome (Turn I K)
  unfolding shell_round
  shell_loop zero fuel s = Outcome.no_fuel
  shell_loop (suc rounds) fuel s = shell_round fuel s >>= elim [
    | continues s' ↦ shell_loop rounds fuel s'
    | finishes status s' ↦ ok (finishes status s')
  ]

  -- The handler of the timeout is set before the loop.
  pub main : ℕ → ℕ → Session I K → Outcome (Turn I K)
  unfolding shell_loop
  main rounds fuel s =
      let (set, k) = system.signal s.kernel in
      if ltb 0 timeout
      then (if set
          then shell_loop rounds fuel (record s { kernel = k })
          else ok (finishes 1 (record s { kernel = k })))
      else shell_loop rounds fuel s
