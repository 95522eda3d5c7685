-- ===== src/CommandLine/Whole.antt =====
-- `main` of project1/simulation.c, from the options and the file to the end of the runner.
use mathlib.Core.List.{append-nil}
use comp.Base.{
  ℕ, suc, ◌+◌, ◌<◌, ◌≡◌, ◌≢◌, ◌⊎◌, ◌∙◌, refl, subst, inl, inr, List, [], ◌∷◌, ◌++◌, Option, none,
  some, Bool, true, false, length, All, Outcome, ok, Bool-cases, Option-cases,
}
use comp.Parser.{ScheduledProcess}
use comp.Parser.Parse.{line_processes, parse_process_data_file_lem}
use comp.Scheduler.Work.{future, last_start, times, pcb_keys, scheduled_keys}
use comp.Scheduler.Admitting.{CanLoad}
use comp.Simulation.Sound.{IsEnded}
use comp.Fcfs.Runner.{fcfs_scheduler_runner_lem}
use comp.Multi.Runner.{multi_scheduler_runner_lem}
use comp.CommandLine.{
  fcfs_name, fcfs_algorithm, multi_algorithm, Options, unset, Ending, exits, fcfs_ended,
  multi_ended, handled, failed, strcmp_equal, handle_options, run_fcfs, run_multi, run_with, choose,
  run_algorithm, main,
}
use comp.CommandLine.Arguments.{
  IsAccepted, last_argument, algorithm_of, updated, set_by, handle_options-append, complaint,
  handle_option-refused,
}

-- The runner that was asked for has ended and has served the processes: first come, first served, in their
-- order; else each job as often as there is a process with it.
abbrev pub Served : Bool → List ScheduledProcess → Ending → Type 0
Served true sps (fcfs_ended s) =
    (pcb_keys s.terminated_list ≡ scheduled_keys sps) × All IsEnded s.terminated_list
Served false sps (multi_ended s) =
    ((id job : ℕ) → times id job (pcb_keys s.terminated_list) ≡ times id job (scheduled_keys sps))
    × All IsEnded s.terminated_list
Served _ _ _ = ⊥

module _ (atoi : List ℕ → ℕ) (fuel : ℕ) where
  -- A file whose processes can be served.
  pub record IsServable (memsize : ℕ) (lines : List (List (List ℕ))) : Type 0 where
    pub whole_lines : All (λ line. length line ≢ 3) lines
    pub has_memory : 0 < memsize
    pub all_fit : All (CanLoad memsize) (line_processes atoi lines)
    pub enough_fuel :
        future (line_processes atoi lines) + suc (last_start (line_processes atoi lines)) < fuel

module _ (atoi : List ℕ → ℕ) (fopen : List ℕ → Option (List (List (List ℕ)))) (fuel : ℕ) where
  -- All options accepted: they have set the variables when the algorithm is looked at.
  handled_options :
      (options : List (ℕ × List ℕ))
      → All IsAccepted options
      → main atoi fopen fuel options ≡ run_algorithm atoi fopen fuel (set_by atoi options unset)
  unfolding main handle_options
  handled_options options h =
      let e : handle_options atoi options unset ≡ handled (set_by atoi options unset) =
        subst (λ l. handle_options atoi l unset ≡ handled (set_by atoi options unset))
          (append-nil options) (handle_options-append atoi options [] unset h) in
      rw (e, main) refl

  module _ (filename : List ℕ) (memsize : ℕ) (lines : List (List (List ℕ)))
      (opened : fopen filename ≡ some lines) (able : IsServable atoi fuel memsize lines) where
    run_fcfs_lem :
        (r : Ending) × (run_fcfs atoi fopen fuel filename memsize ≡ ok r)
        × Served true (line_processes atoi lines) r
    unfolding run_fcfs
    run_fcfs_lem =
        let (result, e, same, _) = parse_process_data_file_lem atoi lines able.whole_lines in
        let (s, e', keys, ended, _, _, _, _) =
          fcfs_scheduler_runner_lem memsize fuel (line_processes atoi lines) able.has_memory
            able.all_fit able.enough_fuel in
        (fcfs_ended s, rw (opened, run_fcfs) (simp (e, same, e')), (keys, ended))

    run_multi_lem :
        (r : Ending) × (run_multi atoi fopen fuel filename memsize ≡ ok r)
        × Served false (line_processes atoi lines) r
    unfolding run_multi
    run_multi_lem =
        let (result, e, same, _) = parse_process_data_file_lem atoi lines able.whole_lines in
        let (s, e', keys, ended, _, _) =
          multi_scheduler_runner_lem memsize fuel (line_processes atoi lines) able.has_memory
            able.all_fit able.enough_fuel in
        (multi_ended s, rw (opened, run_multi) (simp (e, same, e')), (keys, ended))

  -- The last option -f names the file, the last option -m gives the size of the memory, and the last
  -- option -a the algorithm: when all options are accepted, each of the three is given, no line of the file
  -- has three tokens, each process has a size and fits in the memory, and the fuel is enough for the runner,
  -- the program ends, and that runner has served the processes of the file.
  pub main_lem :
      (options : List (ℕ × List ℕ)) (filename size name : List ℕ) (lines : List (List (List ℕ)))
      → All IsAccepted options
      → last_argument b'f' options ≡ some filename
      → last_argument b'm' options ≡ some size
      → last_argument b'a' options ≡ some name
      → fopen filename ≡ some lines
      → IsServable atoi fuel (atoi size) lines
      → (r : Ending) × (main atoi fopen fuel options ≡ ok r)
        × Served (strcmp_equal fcfs_name name) (line_processes atoi lines) r
  unfolding run_algorithm choose run_with
  main_lem options filename size name lines h f m a opened able =
      rw (handled_options options h) (elim (Bool-cases (strcmp_equal fcfs_name name)) [
        | inl e ↦
            let (r, e', served) = run_fcfs_lem filename (atoi size) lines opened able in
            (r, simp (f, m, a, e, e'), rw e served)
        | inr e ↦
            let (r, e', served) = run_multi_lem filename (atoi size) lines opened able in
            (r, simp (f, m, a, e, e'), rw e served)
      ])

  -- The first option that is not accepted ends the program with its message, whatever was asked for before
  -- and after it.
  pub main-exits :
      (before : List (ℕ × List ℕ)) (input : ℕ) (optarg : List ℕ) (after : List (ℕ × List ℕ))
      → All IsAccepted before
      → ¬ IsAccepted (input, optarg)
      → main atoi fopen fuel (before ++ (input, optarg) ∷ after) ≡ ok (exits (complaint atoi input))
  unfolding main handle_options
  main-exits before input optarg after h k =
      let e : handle_options atoi (before ++ (input, optarg) ∷ after) unset
          ≡ failed (complaint atoi input) =
        handle_options-append atoi before ((input, optarg) ∷ after) unset h
        ∙ rw (handle_option-refused atoi input optarg (set_by atoi before unset) k, handle_options)
            refl in
      rw (e, main) refl

  algorithm_of_cases :
      (name : List ℕ) → (algorithm_of name ≡ fcfs_algorithm) ⊎ (algorithm_of name ≡ multi_algorithm)
  algorithm_of_cases name = elim (Bool-cases (strcmp_equal fcfs_name name)) [
    | inl e ↦ inl (rw e refl)
    | inr e ↦ inr (rw e refl)
  ]

  missing_value :
      (options : List (ℕ × List ℕ))
      → (last_argument b'f' options ≡ none) ⊎ (last_argument b'm' options ≡ none)
      → ((set_by atoi options unset).filename ≡ none) ⊎ ((set_by atoi options unset).memsize ≡ none)
  missing_value options (inl f) = inl (simp f)
  missing_value options (inr m) = inr (simp m)

  run_with-undefined :
      (o : Options) (run : List ℕ → ℕ → Outcome Ending)
      → (o.filename ≡ none) ⊎ (o.memsize ≡ none)
      → run_with atoi fopen fuel o run ≡ Outcome.undefined
  unfolding run_with
  run_with-undefined o run (inl f) = simp f
  run_with-undefined o run (inr m) = elim (Option-cases o.filename) [
    | inl f ↦ simp f
    | inr (s, f) ↦ simp (f, m)
  ]

  unreadable :
      (name : Option (List ℕ)) (o : Options)
      → o.algorithm ≡ updated algorithm_of name none
      → (o.filename ≡ none) ⊎ (o.memsize ≡ none)
      → run_algorithm atoi fopen fuel o ≡ Outcome.undefined
  unfolding run_algorithm
  unreadable none o e missing = simp e
  unreadable (some n) o e missing = elim (algorithm_of_cases n) [
    | inl z ↦ simp (e, z, run_with-undefined o (run_fcfs atoi fopen fuel) missing)
    | inr z ↦ simp (e, z, run_with-undefined o (run_multi atoi fopen fuel) missing)
  ]

  -- When all options are accepted and one of the three is not given, a variable is read that has no value.
  pub main_undefined :
      (options : List (ℕ × List ℕ))
      → All IsAccepted options
      → (last_argument b'a' options ≡ none)
        ⊎ ((last_argument b'f' options ≡ none) ⊎ (last_argument b'm' options ≡ none))
      → main atoi fopen fuel options ≡ Outcome.undefined
  unfolding run_algorithm
  main_undefined options h (inl a) = rw (handled_options options h) (simp a)
  main_undefined options h (inr missing) = rw (handled_options options h) (
      unreadable (last_argument b'a' options) (set_by atoi options unset) refl
        (missing_value options missing))
