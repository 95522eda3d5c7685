-- ===== src/SecretCode/Feedback.antt =====
-- `get_secret_code_guess_feedback` of project2/secret-code.c.
use native.Mathlib.Decide.{ℕ_discrete}
use comp.Base.{
  ℕ, suc, ◌+◌, ◌≡◌, ◌≢◌, refl, sym, ◌∙◌, List, [], ◌∷◌, length, Option, none, some, Bool, true,
  false, ◌||◌, ◌==◌, if◌then◌else◌, arith, Bool-cases, inl, inr,
}
use comp.SecretCode.{
  secret_code_colors, correct_positions, count_visited, keep_visited, mark_color, count_colors,
}
use comp.SecretCode.Tally.{count, tally, tally_nil, IsOver, tally_both, tally_absent}

pub equal : (a b : ℕ) → a ≡ b → (a == b) ≡ true
equal a b e = ground (arith, e)

pub unequal : (a b : ℕ) → a ≢ b → (a == b) ≡ false
unequal a b ne = ground (arith, ne)

-- The characters of the actual code that neither array marks.
abbrev pub open_chars : List Bool → List Bool → List ℕ → List ℕ
open_chars (v ∷ visited) (w ∷ visited_2) (a ∷ actual) =
    if v || w then open_chars visited visited_2 actual else a ∷ open_chars visited visited_2 actual
open_chars _ _ _ = []

-- What a search marks: one more character `g`.
abbrev Marks : ℕ → List Bool → List Bool → List ℕ → Option (List Bool) → Type 0
Marks g visited visited_2 actual none = count g (open_chars visited visited_2 actual) ≡ 0
Marks g visited visited_2 actual (some visited_2') =
    (c : ℕ)
    → count c (open_chars visited visited_2 actual)
      ≡ (if c == g then 1 else 0) + count c (open_chars visited visited_2' actual)

mark_color-Marks :
    (g : ℕ) (visited visited_2 : List Bool) (actual : List ℕ)
    → Marks g visited visited_2 actual (mark_color g visited visited_2 actual)
unfolding mark_color
mark_color-Marks g [] visited_2 actual = refl
mark_color-Marks g (v ∷ visited) [] actual = refl
mark_color-Marks g (v ∷ visited) (w ∷ visited_2) [] = refl
mark_color-Marks g (v ∷ visited) (w ∷ visited_2) (a ∷ actual) =
    after v w (mark_color g visited visited_2 actual) (mark_color-Marks g visited visited_2 actual)
  where
    after :
        (v w : Bool) (o : Option (List Bool))
        → Marks g visited visited_2 actual o
        → Marks g (v ∷ visited) (w ∷ visited_2) (a ∷ actual) (
            if v || w
            then keep_visited w o
            else if g == a
            then some (true ∷ visited_2)
            else keep_visited w o)
    after true w none h = h
    after true w (some r) h = h
    after false true none h = h
    after false true (some r) h = h
    after false false none h = elim (ℕ_discrete g a) [
      | yes e ↦ rw (equal g a e) (λ c. ground (arith, e))
      | no ne ↦ rw (unequal g a ne) (ground (arith, h, ne))
    ]
    after false false (some r) h = elim (ℕ_discrete g a) [
      | yes e ↦ rw (equal g a e) (λ c. ground (arith, e))
      | no ne ↦ rw (unequal g a ne) (λ c. ground (arith, h c))
    ]

-- The characters of the guess at the positions that are not marked.
abbrev pub open_guess : List ℕ → List Bool → List ℕ
open_guess (g ∷ guess) (true ∷ rest) = open_guess guess rest
open_guess (g ∷ guess) (false ∷ rest) = g ∷ open_guess guess rest
open_guess _ _ = []

module _ (visited : List Bool) (actual : List ℕ) where
  after_search :
      (g : ℕ) (guess : List ℕ) (rest visited_2 : List Bool) (o : Option (List Bool))
      → count g secret_code_colors ≡ 1
      → ((visited_2' : List Bool)
          → count_colors guess rest visited visited_2' actual
            ≡ tally secret_code_colors
                (open_guess guess rest)
                (open_chars visited visited_2' actual))
      → Marks g visited visited_2 actual o
      → elim o [
        | none ↦ count_colors guess rest visited visited_2 actual
        | some visited_2' ↦ suc (count_colors guess rest visited visited_2' actual)
      ]
        ≡ tally secret_code_colors (g ∷ open_guess guess rest) (open_chars visited visited_2 actual)
  after_search g guess rest visited_2 none h ih m =
      ih visited_2
      ∙ sym (
          tally_absent secret_code_colors g (open_guess guess rest)
            (open_chars visited visited_2 actual) m)
  after_search g guess rest visited_2 (some visited_2') h ih m = omega (
    arith,
    h,
    ih visited_2',
    tally_both secret_code_colors g (open_guess guess rest) (open_chars visited visited_2' actual)
        (open_chars visited visited_2 actual) m,
  )

  -- The second outer loop counts the characters that what is left of both codes shares.
  pub count_colors-tally :
      (guess : List ℕ) (rest visited_2 : List Bool)
      → IsOver secret_code_colors guess
      → count_colors guess rest visited visited_2 actual
        ≡ tally secret_code_colors (open_guess guess rest) (open_chars visited visited_2 actual)
  unfolding count_colors
  count_colors-tally [] rest visited_2 h = sym (tally_nil secret_code_colors _)
  count_colors-tally (g ∷ guess) [] visited_2 h = sym (tally_nil secret_code_colors _)
  count_colors-tally (g ∷ guess) (true ∷ rest) visited_2 h =
      count_colors-tally guess rest visited_2 h.1
  count_colors-tally (g ∷ guess) (false ∷ rest) visited_2 h =
      after_search g guess rest visited_2 (mark_color g visited visited_2 actual) h.0
        (λ v. count_colors-tally guess rest v h.1) (mark_color-Marks g visited visited_2 actual)

-- The characters on which both codes agree.
abbrev pub agreed : List ℕ → List ℕ → List ℕ
agreed (g ∷ guess) (a ∷ actual) = if g == a then g ∷ agreed guess actual else agreed guess actual
agreed _ _ = []

-- At how many positions both codes agree.
abbrev pub agreements : List ℕ → List ℕ → ℕ
agreements guess actual = length (agreed guess actual)

abbrev pub unmarked : List ℕ → List Bool
unmarked [] = []
unmarked (a ∷ actual) = false ∷ unmarked actual

pub count_visited-agreements :
    (guess actual : List ℕ)
    → count_visited (correct_positions guess actual) ≡ agreements guess actual
unfolding count_visited correct_positions
count_visited-agreements [] actual = refl
count_visited-agreements (g ∷ guess) [] = refl
count_visited-agreements (g ∷ guess) (a ∷ actual) =
    ground (arith, count_visited-agreements guess actual)

pub guess_parts :
    (guess actual : List ℕ) (c : ℕ)
    → length guess ≡ length actual
    → count c guess
      ≡ count c (agreed guess actual) + count c (open_guess guess (correct_positions guess actual))
unfolding correct_positions
guess_parts [] actual c e = refl
guess_parts (g ∷ guess) [] c e = absurd (omega (arith, e))
guess_parts (g ∷ guess) (a ∷ actual) c e = elim (ℕ_discrete g a) [
  | yes k ↦ rw (equal g a k) (omega (arith, guess_parts guess actual c (omega (arith, e))))
  | no ne ↦ rw (unequal g a ne) (omega (arith, guess_parts guess actual c (omega (arith, e))))
]

pub actual_parts :
    (guess actual : List ℕ) (c : ℕ)
    → length guess ≡ length actual
    → count c actual
      ≡ count c (agreed guess actual)
        + count c (open_chars (correct_positions guess actual) (unmarked actual) actual)
unfolding correct_positions
actual_parts [] [] c e = refl
actual_parts [] (a ∷ actual) c e = absurd (omega (arith, e))
actual_parts (g ∷ guess) [] c e = absurd (omega (arith, e))
actual_parts (g ∷ guess) (a ∷ actual) c e = elim (ℕ_discrete g a) [
  | yes k ↦ rw (equal g a k, k) (omega (arith, actual_parts guess actual c (omega (arith, e))))
  | no ne ↦ rw (unequal g a ne) (omega (arith, actual_parts guess actual c (omega (arith, e))))
]

pub agreed-IsOver : (cs guess actual : List ℕ) → IsOver cs guess → IsOver cs (agreed guess actual)
agreed-IsOver cs [] actual h = tt
agreed-IsOver cs (g ∷ guess) [] h = tt
agreed-IsOver cs (g ∷ guess) (a ∷ actual) h = elim (Bool-cases (g == a)) [
  | inl e ↦ rw e (h.0, agreed-IsOver cs guess actual h.1)
  | inr e ↦ rw e (agreed-IsOver cs guess actual h.1)
]
