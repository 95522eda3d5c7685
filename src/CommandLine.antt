-- ===== src/CommandLine.antt =====
-- project1/simulation.c: the options, and the simulation that they ask for. What getopt() gives, the number
-- that atoi() reads and the files are parameters; a file is the tokens of each of its lines.
pub mod Arguments
pub mod Whole
use comp.Base.{
  ℕ, List, [], ◌∷◌, Option, none, some, Bool, true, false, ◌==◌, if◌then◌else◌, Outcome, ok, ◌>>=◌,
  deref,
}
use comp.Parser.{parse_process_data_file}
use comp.Fcfs.{Fcfs, fcfs_scheduler_runner}
use comp.Multi.{Multi, multi_scheduler_runner}

abbrev pub fcfs_algorithm : ℕ
fcfs_algorithm = 0

abbrev pub multi_algorithm : ℕ
multi_algorithm = 1

abbrev pub fcfs_name : List ℕ
fcfs_name = b'f' ∷ b'c' ∷ b'f' ∷ b's' ∷ []

abbrev pub multi_name : List ℕ
multi_name = b'm' ∷ b'u' ∷ b'l' ∷ b't' ∷ b'i' ∷ []

-- The variables of main(); one that no option has set has no value.
pub record Options : Type 0 where
  pub filename : Option (List ℕ)
  pub algorithm : Option ℕ
  pub memsize : Option ℕ

abbrev pub unset : Options
unset = record { filename = none; algorithm = none; memsize = none }

-- What is printed before exit(1).
pub data Failure : Type 0 where
  invalid_algorithm_argument : Failure
  unknown_argument : Failure
  fopen_failed : Failure

pub data Handled : Type 0 where
  handled : Options → Handled
  failed : Failure → Handled

-- The end of the program.
pub data Ending : Type 0 where
  exits : Failure → Ending
  fcfs_ended : Fcfs → Ending
  multi_ended : Multi → Ending
  returns : Ending

-- strcmp() of two strings is 0.
unfoldable pub strcmp_equal : List ℕ → List ℕ → Bool
strcmp_equal [] [] = true
strcmp_equal [] (d ∷ t) = false
strcmp_equal (c ∷ s) [] = false
strcmp_equal (c ∷ s) (d ∷ t) = if c == d then strcmp_equal s t else false

pub set_algorithm : List ℕ → Options → Handled
unfolding strcmp_equal
set_algorithm optarg o =
    if strcmp_equal fcfs_name optarg
    then handled (record o { algorithm = some fcfs_algorithm })
    else if strcmp_equal multi_name optarg
    then handled (record o { algorithm = some multi_algorithm })
    else failed invalid_algorithm_argument

module _ (atoi : List ℕ → ℕ) where
  -- The option that getopt() gives, with its argument.
  pub handle_option : ℕ → List ℕ → Options → Handled
  unfolding set_algorithm
  handle_option input optarg o =
      if input == b'f'
      then handled (record o { filename = some optarg })
      else if input == b'a'
      then set_algorithm optarg o
      else if input == b'm'
      then handled (record o { memsize = some (atoi optarg) })
      else failed unknown_argument

  pub handle_options : List (ℕ × List ℕ) → Options → Handled
  handle_options [] o = handled o
  handle_options ((input, optarg) ∷ rest) o = elim (handle_option input optarg o) [
    | handled o' ↦ handle_options rest o'
    | failed m ↦ failed m
  ]

  module _ (fopen : List ℕ → Option (List (List (List ℕ)))) (fuel : ℕ) where
    -- A runner opens the file and has it parsed.
    pub run_fcfs : List ℕ → ℕ → Outcome Ending
    run_fcfs filename memsize = elim (fopen filename) [
      | none ↦ ok (exits fopen_failed)
      | some lines ↦ (do
        sps ← parse_process_data_file atoi lines
        s ← fcfs_scheduler_runner fuel memsize sps.scheduled_procs
        ok (fcfs_ended s))
    ]

    pub run_multi : List ℕ → ℕ → Outcome Ending
    run_multi filename memsize = elim (fopen filename) [
      | none ↦ ok (exits fopen_failed)
      | some lines ↦ (do
        sps ← parse_process_data_file atoi lines
        s ← multi_scheduler_runner fuel memsize sps.scheduled_procs
        ok (multi_ended s))
    ]

    pub run_with : Options → (List ℕ → ℕ → Outcome Ending) → Outcome Ending
    run_with o run = do filename ← deref o.filename; memsize ← deref o.memsize; run filename memsize

    pub choose : ℕ → Options → Outcome Ending
    unfolding run_fcfs run_multi run_with
    choose algorithm o =
        if algorithm == fcfs_algorithm
        then run_with o run_fcfs
        else if algorithm == multi_algorithm
        then run_with o run_multi
        else ok returns

    pub run_algorithm : Options → Outcome Ending
    unfolding choose
    run_algorithm o = do algorithm ← deref o.algorithm; choose algorithm o

    pub main : List (ℕ × List ℕ) → Outcome Ending
    unfolding handle_options run_algorithm
    main options = elim (handle_options options unset) [
      | handled o ↦ run_algorithm o
      | failed m ↦ ok (exits m)
    ]
