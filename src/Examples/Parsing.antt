-- ===== src/Examples/Parsing.antt =====
-- Instances of the theorems about project1/process-data-file-parser.c.
use comp.Base.{ℕ, ◌≡◌, ◌≤◌, refl, List, [], ◌∷◌, ◌++◌, length, arith, Outcome, ok}
use comp.Parser.{ScheduledProcesses, parse_process_data_file}
use comp.Parser.Parse.{
  line_processes, parse_process_data_file_lem, parse_process_data_file_undefined,
}

-- Tokens that are numbers already.
abbrev value : ℕ → ℕ
value n = n

abbrev file : List (List ℕ)
file = (0 ∷ 4 ∷ 98 ∷ 15 ∷ []) ∷ (7 ∷ []) ∷ (3 ∷ 2 ∷ 33 ∷ 20 ∷ 1 ∷ []) ∷ []

abbrev short_line : List ℕ
short_line = 5 ∷ 1 ∷ 100 ∷ []

parse_process_data_file_lem_example :
    (result : ScheduledProcesses) × (parse_process_data_file value file ≡ ok result)
    × (result.scheduled_procs ≡ line_processes value file)
    × (length result.scheduled_procs ≤ result.scheduled_procs_max_len)
parse_process_data_file_lem_example = parse_process_data_file_lem value file (omega arith)

parse_process_data_file_undefined_example :
    parse_process_data_file value (file ++ short_line ∷ []) ≡ Outcome.undefined
parse_process_data_file_undefined_example =
    parse_process_data_file_undefined value file short_line [] (omega arith) refl
