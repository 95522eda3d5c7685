-- ===== src/Parser.antt =====
-- project1/process-data-file-parser.c and .h: the scheduled processes.
pub mod Parse
use comp.Base.{
  ℕ, zero, suc, ◌+◌, ◌-◌, ◌*◌, List, [], ◌∷◌, ◌++◌, Option, none, some, Bool, true, false, ◌==◌,
  if◌then◌else◌, length, get_elem?, Outcome, ok, ◌>>=◌, deref,
}

pub record ScheduledProcess : Type 0 where
  pub start_time : ℕ
  pub process_id : ℕ
  pub memory_size : ℕ
  pub job_time : ℕ

unfoldable pub new_scheduled_process : ℕ → ℕ → ℕ → ℕ → ScheduledProcess
new_scheduled_process start_time process_id memory_size job_time = record {
  start_time = start_time;
  process_id = process_id;
  memory_size = memory_size;
  job_time = job_time;
}

abbrev pub tokens_len : ℕ
tokens_len = 4

abbrev pub initial_scheduled_procs_max_len : ℕ
initial_scheduled_procs_max_len = 4

abbrev pub scheduled_procs_max_len_grow_factor : ℕ
scheduled_procs_max_len_grow_factor = 2

-- The array of scheduled processes, and the length it is allocated for, less the null pointer.
pub record ScheduledProcesses : Type 0 where
  pub scheduled_procs : List ScheduledProcess
  pub scheduled_procs_max_len : ℕ

-- A line is the tokens that the calls of strtok() give for it, before the null pointer.
module _ {T : Type 0} where
  -- A call of strtok().
  next_token : List T → Option T × List T
  next_token [] = (none, [])
  next_token (t ∷ rest) = (some t, rest)

  -- The loop over the tokens of a line, which goes on after a token that is not null; `left` entries
  -- of the array are left.
  more_tokens : ℕ → Option T → List T → List (Option T)
  unfolding next_token
  more_tokens zero last rest = []
  more_tokens (suc left) none rest = []
  more_tokens (suc left) (some t) rest =
      let (t', rest') = next_token rest in t' ∷ more_tokens left t' rest'

  -- The entries of the array `tokens` that are set.
  get_tokens : List T → List (Option T)
  unfolding more_tokens
  get_tokens line = let (t, rest) = next_token line in t ∷ more_tokens (tokens_len - 1) t rest

  module _ (atoi : T → ℕ) where
    -- atoi() of an entry of the array; of the null pointer it is undefined.
    number_at : List (Option T) → ℕ → Outcome ℕ
    number_at tokens i = do entry ← deref (get_elem? tokens i); t ← deref entry; ok (atoi t)

    -- The process of a line, where a line with too few tokens gives none.
    parse_line : List T → Outcome (Option ScheduledProcess)
    unfolding get_tokens number_at new_scheduled_process
    parse_line line =
        let tokens = get_tokens line in
        elim (length tokens == tokens_len) [
          | false ↦ ok none
          | true ↦ (do
            start_time ← number_at tokens 0
            process_id ← number_at tokens 1
            memory_size ← number_at tokens 2
            job_time ← number_at tokens 3
            ok (some (new_scheduled_process start_time process_id memory_size job_time)))
        ]

    -- The process is stored at the end of the array, which grows first if it is full.
    add_scheduled_process : Option ScheduledProcess → ScheduledProcesses → ScheduledProcesses
    add_scheduled_process none sps = sps
    add_scheduled_process (some sp) sps = record {
      scheduled_procs = sps.scheduled_procs ++ sp ∷ [];
      scheduled_procs_max_len =
          if length sps.scheduled_procs == sps.scheduled_procs_max_len
          then sps.scheduled_procs_max_len * scheduled_procs_max_len_grow_factor
          else sps.scheduled_procs_max_len;
    }

    parse_lines : List (List T) → ScheduledProcesses → Outcome ScheduledProcesses
    unfolding parse_line add_scheduled_process
    parse_lines [] sps = ok sps
    parse_lines (line ∷ rest) sps = do
      sp ← parse_line line
      parse_lines rest (add_scheduled_process sp sps)

    pub parse_process_data_file : List (List T) → Outcome ScheduledProcesses
    unfolding parse_lines
    parse_process_data_file lines =
        parse_lines lines (record {
          scheduled_procs = [];
          scheduled_procs_max_len = initial_scheduled_procs_max_len;
        })
