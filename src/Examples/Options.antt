-- ===== src/Examples/Options.antt =====
-- Instances of the theorems about project1/simulation.c.
use comp.Base.{
  ℕ, ◌+◌, ◌-◌, ◌*◌, ◌≡◌, refl, inl, inr, List, [], ◌∷◌, ◌++◌, Option, none, some, All, arith,
  Outcome, ok, if◌then◌else◌,
}
use comp.CommandLine.{
  fcfs_name, multi_name, Ending, exits, invalid_algorithm_argument, strcmp_equal, main,
}
use comp.CommandLine.Arguments.{IsAccepted}
use comp.CommandLine.Whole.{Served, IsServable, main_lem, main-exits, main_undefined}
use comp.Parser.{new_scheduled_process}
use comp.Parser.Parse.{line_processes}

-- atoi() of digits.
abbrev value_from : List ℕ → ℕ → ℕ
value_from [] n = n
value_from (c ∷ s) n = value_from s (n * 10 + (c - b'0'))

abbrev atoi : List ℕ → ℕ
atoi s = value_from s 0

abbrev file_name : List ℕ
file_name = b'i' ∷ b'n' ∷ []

abbrev lines : List (List (List ℕ))
lines =
    ((b'0' ∷ []) ∷ (b'4' ∷ []) ∷ (b'9' ∷ b'8' ∷ []) ∷ (b'1' ∷ b'5' ∷ []) ∷ [])
    ∷ ((b'3' ∷ []) ∷ (b'2' ∷ []) ∷ (b'3' ∷ b'3' ∷ []) ∷ (b'2' ∷ []) ∷ [])
    ∷ []

-- One file is there.
abbrev fopen : List ℕ → Option (List (List (List ℕ)))
unfolding strcmp_equal
fopen name = if strcmp_equal name file_name then some lines else none

abbrev size : List ℕ
size = b'1' ∷ b'0' ∷ b'0' ∷ []

abbrev options : List (ℕ × List ℕ)
options = (b'm', b'7' ∷ []) ∷ (b'f', file_name) ∷ (b'a', multi_name) ∷ (b'm', size) ∷ []

options-IsAccepted : All IsAccepted options
options-IsAccepted =
    (inr (inr refl), (inl refl, (inr (inl (refl, inr refl)), (inr (inr refl), tt))))

lines-IsServable : IsServable atoi 60 100 lines
unfolding new_scheduled_process
lines-IsServable = record {
  whole_lines = omega arith;
  has_memory = omega arith;
  all_fit = omega arith;
  enough_fuel = omega arith;
}

main_lem_example :
    (r : Ending) × (main atoi fopen 60 options ≡ ok r)
    × Served (strcmp_equal fcfs_name multi_name) (line_processes atoi lines) r
unfolding strcmp_equal
main_lem_example =
    main_lem atoi fopen 60 options file_name size multi_name lines options-IsAccepted refl refl refl
      refl lines-IsServable

refused : ¬ IsAccepted (b'a', b'x' ∷ [])
refused (inl e) = absurd (omega (arith, e))
refused (inr (inl (e, inl n))) = cc
refused (inr (inl (e, inr n))) = cc
refused (inr (inr e)) = absurd (omega (arith, e))

main-exits_example :
    main atoi fopen 60 (options ++ (b'a', b'x' ∷ []) ∷ []) ≡ ok (exits invalid_algorithm_argument)
main-exits_example = main-exits atoi fopen 60 options b'a' (b'x' ∷ []) [] options-IsAccepted refused

main_undefined_example : main atoi fopen 60 ((b'm', size) ∷ []) ≡ Outcome.undefined
main_undefined_example =
    main_undefined atoi fopen 60 ((b'm', size) ∷ []) (inr (inr refl), tt) (inl refl)
