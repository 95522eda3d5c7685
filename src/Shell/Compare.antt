-- ===== src/Shell/Compare.antt =====
-- `strcmp` of workshop/my-shell.c.
use comp.Base.{
  ◌-◌, ℕ, ◌≡◌, ◌≢◌, ◌↔◌, subst, refl, sym, ap, ◌∙◌, inl, inr, List, [], ◌∷◌, ◌++◌, true, false, leb,
  ◌==◌, All, arith, Bool-cases, Outcome, ok,
}
use comp.Shell.{ℤ, negsuc, pos, difference, strcmp}

pub difference_pos : (a b : ℕ) → leb b a ≡ true → difference a b ≡ pos (a - b)
unfolding difference
difference_pos a b e = simp e

pub difference_negsuc : (a b : ℕ) → leb b a ≡ false → difference a b ≡ negsuc (b - a - 1)
unfolding difference
difference_negsuc a b e = simp e

pub difference_self : (a : ℕ) → difference a a ≡ pos 0
unfolding difference
difference_self a = let le : leb a a ≡ true = ground arith in simp le (ap pos (omega arith))

difference_zero : (a b : ℕ) → difference a b ≡ pos 0 → a ≡ b
unfolding difference
difference_zero a b e = ground (arith, e)

-- Equal strings give 0.
strcmp_same : (s j k : List ℕ) → All (λ c. c ≢ 0) s → strcmp (s ++ 0 ∷ j) (s ++ 0 ∷ k) ≡ ok (pos 0)
unfolding strcmp
strcmp_same [] j k h = ap ok (difference_self 0)
strcmp_same (c ∷ s) j k h =
    let other : (c == 0) ≡ false = ground (arith, h.0) in
    let same : (c == c) ≡ true = ground arith in simp (other, same) (strcmp_same s j k h.1)

abbrev value : Outcome ℤ → ℤ
value (ok z) = z
value Outcome.undefined = pos 0
value Outcome.no_fuel = pos 0

strcmp_zero :
    (s t j k : List ℕ)
    → All (λ c. c ≢ 0) s
    → All (λ c. c ≢ 0) t
    → strcmp (s ++ 0 ∷ j) (t ++ 0 ∷ k) ≡ ok (pos 0)
    → s ≡ t
unfolding strcmp
strcmp_zero [] [] j k h h' e = refl
strcmp_zero [] (d ∷ t) j k h h' e = absurd (h'.0 (sym (difference_zero 0 d (ap value e))))
strcmp_zero (c ∷ s) [] j k h h' e =
    let other : (c == 0) ≡ false = ground (arith, h.0) in
    absurd (h.0 (difference_zero c 0 (ap value (simp other at e))))
strcmp_zero (c ∷ s) (d ∷ t) j k h h' e =
    let other : (c == 0) ≡ false = ground (arith, h.0) in
    elim (Bool-cases (c == d)) [
      | inl same ↦
          let equal : c ≡ d = ground (arith, same) in
          ap (λ a. a ∷ s) equal
          ∙ ap (λ l. d ∷ l) (strcmp_zero s t j k h.1 h'.1 (simp (other, same) at e))
      | inr differs ↦
          let equal : c ≡ d = difference_zero c d (ap value (simp (other, differs) at e)) in
          absurd (ground (arith, equal, differs))
    ]

-- Two C strings compare as 0 just if they are equal.
strcmp_lem :
    (s t j k : List ℕ)
    → All (λ c. c ≢ 0) s
    → All (λ c. c ≢ 0) t
    → (strcmp (s ++ 0 ∷ j) (t ++ 0 ∷ k) ≡ ok (pos 0)) ↔ (s ≡ t)
strcmp_lem s t j k h h' = (
  strcmp_zero s t j k h h',
  λ e. subst (λ u. strcmp (s ++ 0 ∷ j) (u ++ 0 ∷ k) ≡ ok (pos 0)) e (strcmp_same s j k h),
)
