-- ===== src/CommandLine/Arguments.antt =====
-- The options of project1/simulation.c.
use comp.Base.{
  ℕ, ◌≡◌, ◌⊎◌, ◌∙◌, refl, sym, ap, inl, inr, List, [], ◌∷◌, ◌++◌, Option, none, some, true, ◌==◌,
  if◌then◌else◌, All, arith, Bool-cases,
}
use comp.CommandLine.{
  fcfs_algorithm, multi_algorithm, fcfs_name, multi_name, Options, Failure,
  invalid_algorithm_argument, unknown_argument, handled, failed, strcmp_equal, set_algorithm,
  handle_option, handle_options,
}

pub strcmp_equal-eq : (s t : List ℕ) → strcmp_equal s t ≡ true → s ≡ t
unfolding strcmp_equal
strcmp_equal-eq [] [] e = refl
strcmp_equal-eq [] (d ∷ t) e = cc
strcmp_equal-eq (c ∷ s) [] e = cc
strcmp_equal-eq (c ∷ s) (d ∷ t) e = ground (arith, strcmp_equal-eq s t)

pub strcmp_equal_refl : (s : List ℕ) → strcmp_equal s s ≡ true
unfolding strcmp_equal
strcmp_equal_refl [] = refl
strcmp_equal_refl (c ∷ s) = ground (arith, strcmp_equal_refl s)

-- An option that getopt() can give for this program, with an argument that the program takes.
abbrev pub IsAccepted : ℕ × List ℕ → Type 0
IsAccepted (input, optarg) =
    (input ≡ b'f')
    ⊎ (((input ≡ b'a') × ((optarg ≡ fcfs_name) ⊎ (optarg ≡ multi_name))) ⊎ (input ≡ b'm'))

abbrev pub later_or {ℓ} : {A : Type ℓ} → Option A → Option A → Option A
later_or none now = now
later_or (some a) now = some a

-- The argument of the last option of a kind.
abbrev pub last_argument : ℕ → List (ℕ × List ℕ) → Option (List ℕ)
last_argument input [] = none
last_argument input ((c, optarg) ∷ rest) =
    later_or (last_argument input rest) (if c == input then some optarg else none)

abbrev pub algorithm_of : List ℕ → ℕ
algorithm_of name = if strcmp_equal fcfs_name name then fcfs_algorithm else multi_algorithm

-- The new value of a variable, where there is one.
abbrev pub updated {ℓ} : {A B : Type ℓ} → (A → B) → Option A → Option B → Option B
updated f none old = old
updated f (some a) old = some (f a)

module _ (atoi : List ℕ → ℕ) where
  -- The options set each variable to the argument of the last option that is for it.
  abbrev pub set_by : List (ℕ × List ℕ) → Options → Options
  set_by options o = record {
    filename = updated (λ s. s) (last_argument b'f' options) o.filename;
    algorithm = updated algorithm_of (last_argument b'a' options) o.algorithm;
    memsize = updated atoi (last_argument b'm' options) o.memsize;
  }

  handle_option_lem :
      (input : ℕ) (optarg : List ℕ) (o : Options)
      → IsAccepted (input, optarg)
      → handle_option atoi input optarg o ≡ handled (set_by ((input, optarg) ∷ []) o)
  unfolding handle_option
  handle_option_lem input optarg o (inl e) = rw e refl
  handle_option_lem input optarg o (inr (inl (e, inl n))) = rw (e, n) refl
  handle_option_lem input optarg o (inr (inl (e, inr n))) = rw (e, n) refl
  handle_option_lem input optarg o (inr (inr e)) = rw e refl

  updated-later {ℓ} :
      {A B : Type ℓ} (f : A → B) (later now : Option A) (old : Option B)
      → updated f later (updated f now old) ≡ updated f (later_or later now) old
  updated-later f none now old = refl
  updated-later f (some a) now old = refl

  set_by-cons :
      (input : ℕ) (optarg : List ℕ) (rest : List (ℕ × List ℕ)) (o : Options)
      → set_by rest (set_by ((input, optarg) ∷ []) o) ≡ set_by ((input, optarg) ∷ rest) o
  set_by-cons input optarg rest o = simp updated-later

  -- The options before the first that is not accepted have their effect.
  pub handle_options-append :
      (before after : List (ℕ × List ℕ)) (o : Options)
      → All IsAccepted before
      → handle_options atoi (before ++ after) o ≡ handle_options atoi after (set_by before o)
  unfolding handle_options
  handle_options-append [] after o h = refl
  handle_options-append ((input, optarg) ∷ before) after o h =
      rw (handle_option_lem input optarg o h.0, handle_options)
        (handle_options-append before after (set_by ((input, optarg) ∷ []) o) h.1
          ∙ ap (handle_options atoi after) (set_by-cons input optarg before o))

  set_algorithm-refused :
      (optarg : List ℕ) (o : Options)
      → ¬ ((optarg ≡ fcfs_name) ⊎ (optarg ≡ multi_name))
      → set_algorithm optarg o ≡ failed invalid_algorithm_argument
  unfolding set_algorithm
  set_algorithm-refused optarg o h = elim (Bool-cases (strcmp_equal fcfs_name optarg)) [
    | inl e ↦ absurd (h (inl (sym (strcmp_equal-eq fcfs_name optarg e))))
    | inr e ↦ elim (Bool-cases (strcmp_equal multi_name optarg)) [
      | inl m ↦ absurd (h (inr (sym (strcmp_equal-eq multi_name optarg m))))
      | inr m ↦ rw (e, m) refl
    ]
  ]

  -- The message about an option that is not accepted.
  abbrev pub complaint : ℕ → Failure
  complaint input = if input == b'a' then invalid_algorithm_argument else unknown_argument

  pub handle_option-refused :
      (input : ℕ) (optarg : List ℕ) (o : Options)
      → ¬ IsAccepted (input, optarg)
      → handle_option atoi input optarg o ≡ failed (complaint input)
  unfolding handle_option
  handle_option-refused input optarg o h = elim (Bool-cases (input == b'f')) [
    | inl f ↦ absurd (h (inl (ground (arith, f))))
    | inr f ↦ elim (Bool-cases (input == b'm')) [
      | inl m ↦ absurd (h (inr (inr (ground (arith, m)))))
      | inr m ↦ elim (Bool-cases (input == b'a')) [
        | inl a ↦
            rw (f, a) (set_algorithm-refused optarg o λ n. h (inr (inl (ground (arith, a), n))))
        | inr a ↦ rw (f, a, m) refl
      ]
    ]
  ]
