-- ===== src/Primes.antt =====
-- workshop/signal-prime-number.c, `isprimeno`.
pub mod Announcing
use native.Mathlib.Decide.{ℕ_discrete}
use native.Mathlib.Nat.{mul-le-mul_left, mod-lt, mul-mod_right, div-add-mod'}
use comp.Base.{
  ℕ, zero, suc, ◌*◌, ◌/◌, ◌%◌, ◌≤◌, ◌<◌, ◌≡◌, ◌≢◌, ◌↔◌, ◌⊎◌, inl, inr, refl, sym, ap, ◌∙◌, Bool,
  true, false, ltb, leb, ◌==◌, if◌then◌else◌, arith, Bool-cases,
}

-- The loop, at the value `i`.
has_no_factor : ℕ → ℕ → Bool
has_no_factor n zero = true
has_no_factor n (suc i) =
    let rest = has_no_factor n i in
    if leb 2 (suc i) then (if n % suc i == 0 then false else rest) else true

-- A negative number is less than 2 as 0 is, which stands for it.
pub isprimeno : ℕ → Bool
unfolding has_no_factor
isprimeno n = if ltb n 2 then false else has_no_factor n (n / 2)

-- A number from 2 on that is no product but the trivial one.
pub record IsPrime (n : ℕ) : Type 0 where
  pub two : 2 ≤ n
  product : (a b : ℕ) → a * b ≡ n → (a ≡ 1) ⊎ (b ≡ 1)

-- What the loop tells of each number that it tries.
factors_none : (n i d : ℕ) → has_no_factor n i ≡ true → 2 ≤ d → d ≤ i → n % d ≢ 0
unfolding has_no_factor
factors_none n zero d e two le = ground (arith, two, le)
factors_none n (suc i) d e two le =
    let goes : leb 2 (suc i) ≡ true = ground (arith, two, le) in
    elim (Bool-cases (n % suc i == 0)) [
      | inl zero_rest ↦ absurd (ground (arith, simp (goes, zero_rest) at e))
      | inr some_rest ↦ elim (ℕ_discrete d (suc i)) [
        | yes same ↦ λ z. absurd (ground (arith, some_rest, z, ap (λ k. n % k) same))
        | no other ↦ factors_none n i d (simp (goes, some_rest) at e) two (omega (arith, le, other))
      ]
    ]

no_factor : (n i : ℕ) → ((d : ℕ) → 2 ≤ d → d ≤ i → n % d ≢ 0) → has_no_factor n i ≡ true
unfolding has_no_factor
no_factor n zero h = refl
no_factor n (suc i) h = elim (Bool-cases (leb 2 (suc i))) [
  | inl goes ↦
      let some_rest : (n % suc i == 0) ≡ false =
        ground (arith, h (suc i) (ground (arith, goes)) (omega arith)) in
      simp (goes, some_rest) (no_factor n i (λ d two le. h d two (omega (arith, le))))
  | inr stops ↦ simp stops
]

half_lt : (n d : ℕ) → 2 ≤ n → d ≤ n / 2 → d < n
half_lt n d two le = omega (arith, two, le, div-add-mod' n 2)

tried : (n : ℕ) → isprimeno n ≡ true → (2 ≤ n) × (has_no_factor n (n / 2) ≡ true)
unfolding isprimeno
tried n e = elim (Bool-cases (ltb n 2)) [
  | inl small ↦ absurd (ground (arith, simp small at e))
  | inr large ↦ (ground (arith, large), simp large at e)
]

left_pos : (a b : ℕ) → 2 ≤ a * b → 1 ≤ a
left_pos zero b h = omega (arith, h)
left_pos (suc a) b h = omega arith

right_pos : (a b : ℕ) → 2 ≤ a * b → 1 ≤ b
right_pos a zero h = omega (arith, h)
right_pos a (suc b) h = omega arith

le_half : (n a b : ℕ) → a * b ≡ n → 2 ≤ b → a ≤ n / 2
le_half n a b p two =
    let twice : a * 2 ≤ a * b = mul-le-mul_left a two in
    let rest : n % 2 < 2 = mod-lt n (omega arith) in omega (arith, twice, p, div-add-mod' n 2, rest)

isprimeno-IsPrime : (n : ℕ) → isprimeno n ≡ true → IsPrime n
isprimeno-IsPrime n e = record {
  two = (tried n e).0;
  product = λ a b p. elim (ℕ_discrete a 1) [
    | yes one ↦ inl one
    | no other ↦ elim (ℕ_discrete b 1) [
      | yes one ↦ inr one
      | no other' ↦
          let (two, none) = tried n e in
          let both : 2 ≤ a * b = omega (arith, two, p) in
          absurd (
            factors_none n (n / 2) a none (omega (arith, other, left_pos a b both))
              (le_half n a b p (omega (arith, other', right_pos a b both)))
              (ap (λ k. k % a) (sym p) ∙ mul-mod_right a b))
    ]
  ];
}

factor : (n d : ℕ) → IsPrime n → 2 ≤ d → d ≤ n / 2 → n % d ≢ 0
factor n d h two le z =
    let whole : n / d * d ≡ n = omega (arith, z, div-add-mod' n d) in
    elim (h.product (n / d) d whole) [
      | inl one ↦
          let all : 1 * d ≡ n = ap (λ k. k * d) (sym one) ∙ whole in
          omega (arith, all, half_lt n d h.two le)
      | inr one ↦ omega (arith, one, two)
    ]

IsPrime-isprimeno : (n : ℕ) → IsPrime n → isprimeno n ≡ true
unfolding isprimeno
IsPrime-isprimeno n h =
    let large : ltb n 2 ≡ false = ground (arith, h.two) in
    simp large (no_factor n (n / 2) (λ d two le z. factor n d h two le z))

-- The test holds just of the prime numbers.
pub isprimeno_lem : (n : ℕ) → (isprimeno n ≡ true) ↔ IsPrime n
isprimeno_lem n = (isprimeno-IsPrime n, IsPrime-isprimeno n)
