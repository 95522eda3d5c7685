-- ===== src/SecretCode/Guess.antt =====
-- `get_secret_code_guess_feedback` of project2/secret-code.c, as a whole.
use native.Mathlib.Decide.{ℕ_discrete}
use mathlib.Core.Path.{ap₂}
use comp.Base.{
  ℕ, zero, suc, ◌+◌, ◌≤◌, ◌≡◌, ◌↔◌, refl, sym, ap, subst, ◌∙◌, List, [], ◌∷◌, ◌++◌, length, Bool,
  true, false, ◌&&◌, ◌≢◌, arith, ok,
}
use comp.SecretCode.{
  secret_code_len, secret_code_colors, is_color, correct_positions, count_colors,
  SecretCodeGuessFeedback, feedback, get_secret_code_guess_feedback, read_code,
}
use comp.SecretCode.Validity.{all_colors}
use comp.SecretCode.Tally.{count, tally, IsOver, tally-length, tally-le-length}
use comp.SecretCode.Feedback.{
  equal, unequal, open_guess, open_chars, unmarked, agreed, agreements, count_colors-tally,
  count_visited-agreements, guess_parts, actual_parts, agreed-IsOver,
}

color-count : (c : ℕ) → is_color c ≡ true → count c secret_code_colors ≡ 1
unfolding is_color
color-count c h = ground (arith, h)

both_true : (a b : Bool) → a && b ≡ true → (a ≡ true) × (b ≡ true)
both_true true b h = (refl, h)
both_true false b h = absurd (ground (arith, h))

all_colors-IsOver : (code : List ℕ) → all_colors code ≡ true → IsOver secret_code_colors code
all_colors-IsOver [] h = tt
all_colors-IsOver (c ∷ code) h =
    let (hc, hs) = both_true (is_color c) (all_colors code) h in
    (color-count c hc, all_colors-IsOver code hs)

unmarked_four :
    (code : List ℕ)
    → length code ≡ secret_code_len
    → unmarked code ≡ false ∷ false ∷ false ∷ false ∷ []
unmarked_four [] e = absurd (omega (arith, e))
unmarked_four (a ∷ []) e = absurd (omega (arith, e))
unmarked_four (a ∷ b ∷ []) e = absurd (omega (arith, e))
unmarked_four (a ∷ b ∷ c ∷ []) e = absurd (omega (arith, e))
unmarked_four (a ∷ b ∷ c ∷ d ∷ []) e = refl
unmarked_four (a ∷ b ∷ c ∷ d ∷ x ∷ code) e = absurd (omega (arith, e))

read_code-append : (code rest : List ℕ) → read_code (length code) (code ++ rest) ≡ ok code
unfolding read_code
read_code-append [] rest = refl
read_code-append (c ∷ code) rest = rw (read_code-append code rest) refl

read_code-defined :
    (n : ℕ) (code : List ℕ) → n ≤ length code → (text : List ℕ) × (read_code n code ≡ ok text)
unfolding read_code
read_code-defined zero code h = ([], refl)
read_code-defined (suc n) [] h = absurd (omega (arith, h))
read_code-defined (suc n) (c ∷ code) h =
    let (text, e) = read_code-defined n code (omega (arith, h)) in (c ∷ text, rw e refl)

agreements_self : (code : List ℕ) → agreements code code ≡ length code
agreements_self [] = refl
agreements_self (c ∷ code) = rw (equal c c refl) (ap suc (agreements_self code))

agreements-le-length : (guess actual : List ℕ) → agreements guess actual ≤ length guess
agreements-le-length [] actual = omega arith
agreements-le-length (g ∷ guess) [] = omega arith
agreements-le-length (g ∷ guess) (a ∷ actual) = ground (arith, agreements-le-length guess actual)

agreements_equal :
    (g a : ℕ) (guess actual : List ℕ)
    → g ≡ a
    → agreements (g ∷ guess) (a ∷ actual) ≡ suc (agreements guess actual)
agreements_equal g a guess actual e = rw (equal g a e) refl

agreements_unequal :
    (g a : ℕ) (guess actual : List ℕ)
    → g ≢ a
    → agreements (g ∷ guess) (a ∷ actual) ≡ agreements guess actual
agreements_unequal g a guess actual ne = rw (unequal g a ne) refl

agreements-all :
    (guess actual : List ℕ)
    → length guess ≡ length actual
    → agreements guess actual ≡ length guess
    → guess ≡ actual
agreements-all [] [] e h = refl
agreements-all [] (a ∷ actual) e h = absurd (omega (arith, e))
agreements-all (g ∷ guess) [] e h = absurd (omega (arith, e))
agreements-all (g ∷ guess) (a ∷ actual) e h = elim (ℕ_discrete g a) [
  | yes k ↦
      ap₂ (λ x xs. x ∷ xs) k
        (agreements-all guess actual (omega (arith, e))
          (omega (arith, h, agreements_equal g a guess actual k)))
  | no ne ↦
      absurd (
        omega (arith, h, agreements_unequal g a guess actual ne, agreements-le-length guess actual))
]

module _ (actual guess : List ℕ) (ha : length actual ≡ secret_code_len)
    (hg : length guess ≡ secret_code_len) (colors : IsOver secret_code_colors guess) where
  abbrev visited : List Bool
  visited = correct_positions guess actual

  same_length : length guess ≡ length actual
  same_length = hg ∙ sym ha

  feedback-sum :
      (feedback actual guess).correct_positions_count + (feedback actual guess).correct_colors_count
      ≡ tally secret_code_colors guess actual
  unfolding feedback
  feedback-sum = omega (
    arith,
    count_visited-agreements guess actual,
    ap (λ u. count_colors guess visited visited u actual) (unmarked_four actual ha),
    count_colors-tally visited actual guess visited (unmarked actual) colors,
    tally-length secret_code_colors (agreed guess actual) (open_guess guess visited)
        (open_chars visited (unmarked actual) actual) guess actual
        (agreed-IsOver secret_code_colors guess actual colors)
        (λ c. guess_parts guess actual c same_length)
        (λ c. actual_parts guess actual c same_length),
  )

  correct_iff : ((feedback actual guess).is_correct ≡ true) ↔ (guess ≡ actual)
  unfolding feedback
  correct_iff = (
    λ e.
        agreements-all guess actual same_length
          (ground (arith, e, hg, count_visited-agreements guess actual)),
    λ e. ground (
      arith,
      hg,
      count_visited-agreements guess actual,
      ap (λ code. agreements guess code) e,
      agreements_self guess,
    ),
  )

  feedback_read :
      (ra rg : List ℕ)
      → get_secret_code_guess_feedback (actual ++ ra) (guess ++ rg) ≡ ok (feedback actual guess)
  unfolding get_secret_code_guess_feedback
  feedback_read ra rg =
      rw
        (
          subst (λ n. read_code n (actual ++ ra) ≡ ok actual) ha (read_code-append actual ra),
          subst (λ n. read_code n (guess ++ rg) ≡ ok guess) hg (read_code-append guess rg),
        )
        refl

-- For buffers that start with an actual code and a guess of four characters each, the guess of the
-- six colours: the positions counted are those where both agree; positions and colours add up to the
-- sum over the colours of how often each stands in both codes, which is four at most; and the result
-- is true just if the guess is the actual code.
pub get_secret_code_guess_feedback_lem :
    (actual guess ra rg : List ℕ)
    → length actual ≡ secret_code_len
    → length guess ≡ secret_code_len
    → all_colors guess ≡ true
    → (f : SecretCodeGuessFeedback) × (get_secret_code_guess_feedback (actual ++ ra) (guess ++ rg)
        ≡ ok f)
      × (f.correct_positions_count ≡ agreements guess actual)
      × (f.correct_positions_count + f.correct_colors_count ≡ tally secret_code_colors guess actual)
      × (f.correct_positions_count + f.correct_colors_count ≤ secret_code_len)
      × ((f.is_correct ≡ true) ↔ (guess ≡ actual))
unfolding feedback
get_secret_code_guess_feedback_lem actual guess ra rg ha hg h =
    let colors = all_colors-IsOver guess h in
    (
      feedback actual guess,
      feedback_read actual guess ha hg colors ra rg,
      count_visited-agreements guess actual,
      feedback-sum actual guess ha hg colors,
      omega (
        arith,
        hg,
        feedback-sum actual guess ha hg colors,
        tally-le-length secret_code_colors guess actual colors,
      ),
      correct_iff actual guess ha hg colors,
    )

-- On long enough buffers the feedback is defined.
pub get_secret_code_guess_feedback-defined :
    (actual guess : List ℕ)
    → 4 ≤ length actual
    → 4 ≤ length guess
    → (f : SecretCodeGuessFeedback) × (get_secret_code_guess_feedback actual guess ≡ ok f)
unfolding get_secret_code_guess_feedback
get_secret_code_guess_feedback-defined actual guess ha hg =
    let (a, ea) = read_code-defined 4 actual ha in
    let (g, eg) = read_code-defined 4 guess hg in (feedback a g, rw (ea, eg) refl)
