-- ===== src/SecretCode.antt =====
-- project2/secret-code.c and .h: the secret code of the Mastermind game. A character is its code, and
-- a buffer the list of its characters; a read past its end is undefined.
pub mod Validity
pub mod Tally
pub mod Feedback
pub mod Guess
use comp.Base.{
  ℕ, zero, suc, ◌+◌, ◌%◌, List, [], ◌∷◌, ◌++◌, Option, none, some, Bool, true, false, ◌||◌, ◌==◌,
  if◌then◌else◌, get_elem?, Outcome, ok, undefined, ◌>>=◌, deref,
}

abbrev pub secret_code_len : ℕ
secret_code_len = 4

-- SECRET_CODE_COLOR_0 to SECRET_CODE_COLOR_5, 'A' to 'F'.
abbrev pub secret_code_colors : List ℕ
secret_code_colors = 65 ∷ 66 ∷ 67 ∷ 68 ∷ 69 ∷ 70 ∷ []

abbrev pub secret_code_colors_len : ℕ
secret_code_colors_len = 6

-- `rand k` is the result of the call of rand() for the character `k`.
random_colors : (ℕ → ℕ) → ℕ → ℕ → Outcome (List ℕ)
random_colors rand k zero = ok []
random_colors rand k (suc n) = do
  color ← deref (get_elem? secret_code_colors (rand k % secret_code_colors_len))
  rest ← random_colors rand (suc k) n
  ok (color ∷ rest)

pub get_random_secret_code : (ℕ → ℕ) → Outcome (List ℕ)
unfolding random_colors
get_random_secret_code rand = do
  colors ← random_colors rand 0 secret_code_len
  ok (colors ++ 0 ∷ [])

-- The cases of the `switch`.
unfoldable pub is_color : ℕ → Bool
is_color c = c == 65 || (c == 66 || (c == 67 || (c == 68 || (c == 69 || c == 70))))

-- The value of `i` after the loop, that may run `n` more times.
leading_colors : ℕ → List ℕ → Outcome ℕ
unfolding is_color
leading_colors zero code = ok 0
leading_colors (suc n) [] = undefined
leading_colors (suc n) (c ∷ rest) = elim (is_color c) [
  | true ↦ (do i ← leading_colors n rest; ok (suc i))
  | false ↦ ok 0
]

unfoldable pub is_valid_secret_code : List ℕ → Outcome Bool
unfolding leading_colors
is_valid_secret_code code = do
  i ← leading_colors secret_code_len code
  elim (i == secret_code_len) [
    | true ↦ (do c ← deref (get_elem? code secret_code_len); ok (c == 0))
    | false ↦ ok false
  ]

-- The first `n` characters of a buffer.
pub read_code : ℕ → List ℕ → Outcome (List ℕ)
read_code zero code = ok []
read_code (suc n) [] = undefined
read_code (suc n) (c ∷ rest) = do tail ← read_code n rest; ok (c ∷ tail)

-- The array `visited` after the first loop.
pub correct_positions : List ℕ → List ℕ → List Bool
correct_positions (g ∷ guess) (a ∷ actual) = (g == a) ∷ correct_positions guess actual
correct_positions _ _ = []

pub count_visited : List Bool → ℕ
count_visited [] = 0
count_visited (v ∷ rest) = (if v then 1 else 0) + count_visited rest

keep_visited : Bool → Option (List Bool) → Option (List Bool)
keep_visited v none = none
keep_visited v (some rest) = some (v ∷ rest)

-- The inner loop for the character `g` of the guess: the first position of the actual code that is
-- not visited and has this character is marked in `visited_2`.
pub mark_color : ℕ → List Bool → List Bool → List ℕ → Option (List Bool)
unfolding keep_visited
mark_color g (v ∷ visited) (w ∷ visited_2) (a ∷ actual) =
    let later = mark_color g visited visited_2 actual in
    if v || w
    then keep_visited w later
    else if g == a
    then some (true ∷ visited_2)
    else keep_visited w later
mark_color g _ _ _ = none

-- The second outer loop, over the rest of the guess and of `visited`; the second `visited` is whole.
pub count_colors : List ℕ → List Bool → List Bool → List Bool → List ℕ → ℕ
unfolding mark_color
count_colors (g ∷ guess) (true ∷ rest) visited visited_2 actual =
    count_colors guess rest visited visited_2 actual
count_colors (g ∷ guess) (false ∷ rest) visited visited_2 actual =
    elim (mark_color g visited visited_2 actual) [
      | none ↦ count_colors guess rest visited visited_2 actual
      | some visited_2' ↦ suc (count_colors guess rest visited visited_2' actual)
    ]
count_colors _ _ _ _ _ = 0

pub record SecretCodeGuessFeedback : Type 0 where
  pub correct_positions_count : ℕ
  pub correct_colors_count : ℕ
  pub is_correct : Bool

-- The feedback on two codes of the right length.
pub feedback : List ℕ → List ℕ → SecretCodeGuessFeedback
unfolding correct_positions count_visited count_colors
feedback actual guess =
    let visited = correct_positions guess actual in
    record {
      correct_positions_count = count_visited visited;
      correct_colors_count =
          count_colors guess visited visited (false ∷ false ∷ false ∷ false ∷ []) actual;
      is_correct = count_visited visited == secret_code_len;
    }

unfoldable pub get_secret_code_guess_feedback : List ℕ → List ℕ → Outcome SecretCodeGuessFeedback
unfolding read_code feedback
get_secret_code_guess_feedback actual guess = do
  a ← read_code secret_code_len actual
  g ← read_code secret_code_len guess
  ok (feedback a g)
