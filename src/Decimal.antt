-- ===== src/Decimal.antt =====
-- Numbers in decimal, as printf() writes and atoi() reads them.
use mathlib.Core.List.{append_assoc}
use comp.Base.{
  ℕ, zero, suc, ◌+◌, ◌-◌, ◌*◌, ◌/◌, ◌%◌, ◌<◌, ◌≡◌, ◌⊎◌, ◌∙◌, refl, ap, inl, inr, List, [], ◌∷◌,
  ◌++◌, Option, none, some, Bool, true, false, ◌&&◌, ltb, leb, if◌then◌else◌, length, All, arith,
  Bool-cases, Outcome, ok,
}

abbrev pub is_digit : ℕ → Bool
is_digit c = leb 48 c && leb c 57

-- The digits of `n` in front of `rest`.
decimal_before : ℕ → ℕ → List ℕ → List ℕ
decimal_before zero n rest = rest
decimal_before (suc fuel) n rest =
    let more = decimal_before fuel (n / 10) ((48 + n % 10) ∷ rest) in
    if ltb n 10 then (48 + n) ∷ rest else more

-- %d.
unfoldable pub decimal : ℕ → List ℕ
unfolding decimal_before
decimal n = decimal_before (suc n) n []

pub zero_digits : ℕ → List ℕ
zero_digits zero = []
zero_digits (suc n) = 48 ∷ zero_digits n

-- %.2d, with `width` for 2.
pub padded : ℕ → ℕ → List ℕ
unfolding zero_digits
padded width n = zero_digits (width - length (decimal n)) ++ decimal n

-- atoi() of a text that begins with a digit, when `n` is read; a read behind the array is undefined.
pub atoi_from : ℕ → List ℕ → Outcome ℕ
atoi_from n [] = Outcome.undefined
atoi_from n (c ∷ s) =
    let more = atoi_from (n * 10 + (c - 48)) s in if is_digit c then more else ok n

-- The numbers in a text, when `n` is the one that is being read.
pub numbers_from : Option ℕ → List ℕ → List ℕ
numbers_from none [] = []
numbers_from (some n) [] = n ∷ []
numbers_from none (c ∷ s) = numbers_from (if is_digit c then some (c - 48) else none) s
numbers_from (some n) (c ∷ s) =
    let more = numbers_from (some (n * 10 + (c - 48))) s in
    let next = n ∷ numbers_from none s in if is_digit c then more else next

abbrev pub numbers : List ℕ → List ℕ
numbers s = numbers_from none s

decimal_before-append :
    (fuel n : ℕ) (s rest : List ℕ)
    → decimal_before fuel n s ++ rest ≡ decimal_before fuel n (s ++ rest)
unfolding decimal_before
decimal_before-append zero n s rest = refl
decimal_before-append (suc fuel) n s rest = elim (Bool-cases (ltb n 10)) [
  | inl e ↦ rw e refl
  | inr e ↦ rw e (decimal_before-append fuel (n / 10) ((48 + n % 10) ∷ s) rest)
]

numbers_from-digit :
    (n d : ℕ) (s : List ℕ)
    → d < 10
    → numbers_from (some n) ((48 + d) ∷ s) ≡ numbers_from (some (n * 10 + d)) s
unfolding numbers_from
numbers_from-digit n d s h =
    let e : is_digit (48 + d) ≡ true = ground (arith, h) in
    let v : n * 10 + (48 + d - 48) ≡ n * 10 + d = omega arith in simp (e, v)

-- No digit, or only zeros, were read of a number.
abbrev IsFresh : Option ℕ → Type 0
IsFresh current = (current ≡ none) ⊎ (current ≡ some 0)

numbers_from-first :
    (current : Option ℕ) (d : ℕ) (s : List ℕ)
    → IsFresh current
    → d < 10
    → numbers_from current ((48 + d) ∷ s) ≡ numbers_from (some d) s
unfolding numbers_from
numbers_from-first current d s (inl f) h =
    let e : is_digit (48 + d) ≡ true = ground (arith, h) in
    let v : 48 + d - 48 ≡ d = omega arith in
    rw f (
      ap (λ b. numbers_from (if b then some (48 + d - 48) else none) s) e
      ∙ ap (λ k. numbers_from (some k) s) v)
numbers_from-first current d s (inr f) h =
    rw f (numbers_from-digit 0 d s h ∙ ap (λ k. numbers_from (some k) s) (omega arith))

numbers_from-decimal_before :
    (current : Option ℕ) (fuel n : ℕ) (s : List ℕ)
    → IsFresh current
    → n < fuel
    → numbers_from current (decimal_before fuel n s) ≡ numbers_from (some n) s
unfolding decimal_before
numbers_from-decimal_before current zero n s f h = absurd (omega (arith, h))
numbers_from-decimal_before current (suc fuel) n s f h = elim (Bool-cases (ltb n 10)) [
  | inl e ↦ rw e (numbers_from-first current n s f (ground (arith, e)))
  | inr e ↦ rw e (
      numbers_from-decimal_before current fuel (n / 10) ((48 + n % 10) ∷ s) f (ground (arith, e, h))
      ∙ numbers_from-digit (n / 10) (n % 10) s (omega arith)
      ∙ ap (λ k. numbers_from (some k) s) (omega arith))
]

numbers_from-ended :
    (n c : ℕ) (s : List ℕ) → is_digit c ≡ false → numbers_from (some n) (c ∷ s) ≡ n ∷ numbers s
unfolding numbers_from
numbers_from-ended n c s e = simp e

numbers_from-decimal :
    (current : Option ℕ) (n c : ℕ) (s : List ℕ)
    → IsFresh current
    → is_digit c ≡ false
    → numbers_from current (decimal n ++ c ∷ s) ≡ n ∷ numbers s
unfolding decimal
numbers_from-decimal current n c s f e =
    ap (numbers_from current) (decimal_before-append (suc n) n [] (c ∷ s))
    ∙ numbers_from-decimal_before current (suc n) n (c ∷ s) f (omega arith)
    ∙ numbers_from-ended n c s e

-- A printed number is read back before a character that is no digit.
pub numbers-decimal :
    (n c : ℕ) (s : List ℕ) → is_digit c ≡ false → numbers (decimal n ++ c ∷ s) ≡ n ∷ numbers s
numbers-decimal n c s e = numbers_from-decimal none n c s (inl refl) e

numbers_from-zero_digits :
    (current : Option ℕ) (k n c : ℕ) (s : List ℕ)
    → IsFresh current
    → is_digit c ≡ false
    → numbers_from current (zero_digits k ++ (decimal n ++ c ∷ s)) ≡ n ∷ numbers s
unfolding zero_digits
numbers_from-zero_digits current zero n c s f e = numbers_from-decimal current n c s f e
numbers_from-zero_digits current (suc k) n c s f e =
    numbers_from-first current 0 (zero_digits k ++ (decimal n ++ c ∷ s)) f (omega arith)
    ∙ numbers_from-zero_digits (some 0) k n c s (inr refl) e

pub numbers-padded :
    (width n c : ℕ) (s : List ℕ)
    → is_digit c ≡ false
    → numbers (padded width n ++ c ∷ s) ≡ n ∷ numbers s
unfolding padded
numbers-padded width n c s e =
    ap numbers (append_assoc (zero_digits (width - length (decimal n))) (decimal n) (c ∷ s))
    ∙ numbers_from-zero_digits none (width - length (decimal n)) n c s (inl refl) e

atoi_from-digit :
    (n d : ℕ) (s : List ℕ) → d < 10 → atoi_from n ((48 + d) ∷ s) ≡ atoi_from (n * 10 + d) s
unfolding atoi_from
atoi_from-digit n d s h =
    let e : is_digit (48 + d) ≡ true = ground (arith, h) in
    let v : n * 10 + (48 + d - 48) ≡ n * 10 + d = omega arith in simp (e, v)

atoi_from-decimal_before :
    (fuel n : ℕ) (s : List ℕ) → n < fuel → atoi_from 0 (decimal_before fuel n s) ≡ atoi_from n s
unfolding decimal_before
atoi_from-decimal_before zero n s h = absurd (omega (arith, h))
atoi_from-decimal_before (suc fuel) n s h = elim (Bool-cases (ltb n 10)) [
  | inl e ↦ rw e (atoi_from-digit 0 n s (ground (arith, e)) ∙ ap (λ k. atoi_from k s) (omega arith))
  | inr e ↦ rw e (
      atoi_from-decimal_before fuel (n / 10) ((48 + n % 10) ∷ s) (ground (arith, e, h))
      ∙ atoi_from-digit (n / 10) (n % 10) s (omega arith)
      ∙ ap (λ k. atoi_from k s) (omega arith))
]

-- atoi() reads the number that was printed, up to the first character that is no digit.
pub atoi_from-decimal :
    (n c : ℕ) (s : List ℕ) → is_digit c ≡ false → atoi_from 0 (decimal n ++ c ∷ s) ≡ ok n
unfolding decimal atoi_from
atoi_from-decimal n c s e =
    ap (atoi_from 0) (decimal_before-append (suc n) n [] (c ∷ s))
    ∙ atoi_from-decimal_before (suc n) n (c ∷ s) (omega arith)
    ∙ simp e

pub numbers-skip : (c : ℕ) (s : List ℕ) → is_digit c ≡ false → numbers (c ∷ s) ≡ numbers s
unfolding numbers_from
numbers-skip c s e = ap (λ b. numbers_from (if b then some (c - 48) else none) s) e

pub numbers-nil : numbers [] ≡ []
unfolding numbers_from
numbers-nil = refl

module _ (P : ℕ → Type 0) (digits : (d : ℕ) → d < 10 → P (48 + d)) where
  All-decimal_before : (fuel n : ℕ) (s : List ℕ) → All P s → All P (decimal_before fuel n s)
  unfolding decimal_before
  All-decimal_before zero n s h = h
  All-decimal_before (suc fuel) n s h = elim (Bool-cases (ltb n 10)) [
    | inl e ↦ rw e (digits n (ground (arith, e)), h)
    | inr e ↦
        rw e
          (All-decimal_before fuel (n / 10) ((48 + n % 10) ∷ s) (digits (n % 10) (omega arith), h))
  ]

  pub All-decimal : (n : ℕ) → All P (decimal n)
  unfolding decimal
  All-decimal n = All-decimal_before (suc n) n [] tt

decimal_before-cons :
    (fuel n : ℕ) (s : List ℕ)
    → n < fuel
    → (d : ℕ) × (rest : List ℕ) × (decimal_before fuel n s ≡ d ∷ rest)
unfolding decimal_before
decimal_before-cons zero n s h = absurd (omega (arith, h))
decimal_before-cons (suc fuel) n s h = elim (Bool-cases (ltb n 10)) [
  | inl e ↦ (48 + n, s, rw e refl)
  | inr e ↦
      let (d, rest, f) =
        decimal_before-cons fuel (n / 10) ((48 + n % 10) ∷ s) (ground (arith, e, h)) in
      (d, rest, rw e f)
]

pub decimal-cons : (n : ℕ) → (d : ℕ) × (rest : List ℕ) × (decimal n ≡ d ∷ rest)
unfolding decimal
decimal-cons n = decimal_before-cons (suc n) n [] (omega arith)
