-- ===== src/Shell/Command.antt =====
-- workshop/my-shell.c, a round of the loop of main() up to the start of a process: a line is read, one
-- character at a time, and split. read() is a parameter.
pub mod Line
use comp.Base.{
  ℕ, zero, suc, ◌+◌, ◌*◌, List, [], ◌∷◌, ◌++◌, Bool, true, false, ltb, leb, ◌==◌, if◌then◌else◌,
  length, Outcome, ok, ◌>>=◌,
}
use comp.Shell.{ℤ, pos, negsuc, strcmp, strsplit}

abbrev pub strscan_initial_max_str_len : ℕ
strscan_initial_max_str_len = 64

abbrev pub strscan_str_len_grow_factor : ℕ
strscan_str_len_grow_factor = 2

-- What read() of one character gives: the character, nothing at the end of the input, or -1.
pub data Reading : Type 0 where
  character : ℕ → Reading
  at_end : Reading
  failed : Reading

-- A string was read, or exit() has ended the shell.
pub data Scan (S : Type 0) : Type 0 where
  scanned : List ℕ → S → Scan S
  quits : Scan S

-- What is to be done: nothing, to end the shell, or to execute a file, the latter two with the words of the line.
pub data Command : Type 0 where
  nothing : Command
  exit_shell : List (List ℕ) → Command
  execute : List (List ℕ) → Command

pub data Round (S : Type 0) : Type 0 where
  commands : Command → S → Round S
  ends : Round S

-- The size of the memory for the string, without the last character.
memory_for : ℕ → ℕ → ℕ
memory_for slen maxslen =
    if leb maxslen slen then maxslen * strscan_str_len_grow_factor else maxslen

module _ {S : Type 0} (read : S → Reading × S) where
  -- The loop, when the characters `s` are read. A character behind the memory is undefined, and so is one
  -- that read() has not written.
  strscan_loop : ℕ → List ℕ → ℕ → S → Outcome (Scan S)
  unfolding memory_for
  strscan_loop zero s maxslen stdin = Outcome.no_fuel
  strscan_loop (suc fuel) s maxslen stdin =
      let max = memory_for (length s) maxslen in
      let (reading, stdin') = read stdin in
      elim reading [
        | failed ↦ ok quits
        | at_end ↦ Outcome.undefined
        | character c ↦
            let again = strscan_loop fuel (s ++ c ∷ []) max stdin' in
            if ltb (length s) (max + 1)
            then (if c == 10 then ok (scanned (s ++ 0 ∷ []) stdin') else again)
            else Outcome.undefined
      ]

  pub strscan : ℕ → S → Outcome (Scan S)
  unfolding strscan_loop
  strscan fuel stdin = strscan_loop fuel [] strscan_initial_max_str_len stdin

is_zero : ℤ → Bool
is_zero (pos n) = n == 0
is_zero (negsuc n) = false

-- `exit`, with its null character.
abbrev pub exit_name : List ℕ
exit_name = 101 ∷ 120 ∷ 105 ∷ 116 ∷ []

-- cmdargv[0] tells what to do.
pub command_of : List (List ℕ) → Outcome Command
unfolding is_zero
command_of [] = ok nothing
command_of (cmdfilename ∷ args) = do
  z ← strcmp cmdfilename (exit_name ++ 0 ∷ [])
  ok (if is_zero z then exit_shell (cmdfilename ∷ args) else execute (cmdfilename ∷ args))

after_scan : {S : Type 0} → Scan S → Outcome (Round S)
after_scan quits = ok ends
after_scan (scanned cmd stdin) = do
  cmdargv ← strsplit cmd 32
  command ← command_of cmdargv
  ok (commands command stdin)

pub read_command : {S : Type 0} → (S → Reading × S) → ℕ → S → Outcome (Round S)
unfolding strscan after_scan
read_command read fuel stdin = do scan ← strscan read fuel stdin; after_scan scan
