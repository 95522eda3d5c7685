-- ===== src/Base/Arrays.antt =====
-- What a write to an array leaves of its parts.
use Prim.Native.Nat.{ℕ, zero, suc, ◌+◌, ◌<◌}
use mathlib.Core.Path.{◌≡◌, refl, sym, ap, subst, ◌∙◌}
use mathlib.Core.Logic.{◌≢◌}
use mathlib.Core.List.{List, [], ◌∷◌, ◌++◌}
use mathlib.Core.Option.{some, some-injective}
use native.Mathlib.Omega.{arith}
use comp.Base.Lists.{length, get_elem?, set, take, drop, All}

module _ {ℓ κ} {A : Type ℓ} (P : A → Type κ) where
  pub All-set : (xs : List A) (i : ℕ) (a : A) → All P xs → P a → All P (set xs i a)
  All-set [] i a h k = tt
  All-set (x ∷ xs) zero a h k = (k, h.1)
  All-set (x ∷ xs) (suc i) a h k = (h.0, All-set xs i a h.1 k)

  pub All-get_elem? : (xs : List A) (i : ℕ) {a : A} → All P xs → get_elem? xs i ≡ some a → P a
  All-get_elem? [] i h e = cc
  All-get_elem? (x ∷ xs) zero h e = subst P (some-injective _ _ e) h.0
  All-get_elem? (x ∷ xs) (suc i) h e = All-get_elem? xs i h.1 e

module _ {ℓ} {A : Type ℓ} where
  pub get_elem?-set_self :
      (xs : List A) (i : ℕ) (a b : A) → get_elem? xs i ≡ some a → get_elem? (set xs i b) i ≡ some b
  get_elem?-set_self [] i a b e = cc
  get_elem?-set_self (x ∷ xs) zero a b e = refl
  get_elem?-set_self (x ∷ xs) (suc i) a b e = get_elem?-set_self xs i a b e

  pub get_elem?-set_ne :
      (xs : List A) (i j : ℕ) (b : A) → i ≢ j → get_elem? (set xs i b) j ≡ get_elem? xs j
  get_elem?-set_ne [] i j b h = refl
  get_elem?-set_ne (x ∷ xs) zero zero b h = absurd (h refl)
  get_elem?-set_ne (x ∷ xs) zero (suc j) b h = refl
  get_elem?-set_ne (x ∷ xs) (suc i) zero b h = refl
  get_elem?-set_ne (x ∷ xs) (suc i) (suc j) b h = get_elem?-set_ne xs i j b (λ e. h (ap suc e))

  pub get_elem?-lt : (xs : List A) (i : ℕ) → i < length xs → (a : A) × (get_elem? xs i ≡ some a)
  get_elem?-lt [] i h = elim h [ ]
  get_elem?-lt (x ∷ xs) zero h = (x, refl)
  get_elem?-lt (x ∷ xs) (suc i) h = get_elem?-lt xs i (omega arith)

module _ {ℓ} {A : Type ℓ} where
  pub length-set : (xs : List A) (i : ℕ) (v : A) → length (set xs i v) ≡ length xs
  length-set [] i v = refl
  length-set (x ∷ xs) zero v = refl
  length-set (x ∷ xs) (suc i) v = ap suc (length-set xs i v)

  pub take-set : (xs : List A) (i : ℕ) (v : A) → take i (set xs i v) ≡ take i xs
  take-set [] i v = refl
  take-set (x ∷ xs) zero v = refl
  take-set (x ∷ xs) (suc i) v = ap (λ l. x ∷ l) (take-set xs i v)

  -- A write before the place from which the rest is taken.
  drop-set : (xs : List A) (i : ℕ) (v : A) → drop (suc i) (set xs i v) ≡ drop (suc i) xs
  drop-set [] i v = refl
  drop-set (x ∷ xs) zero v = refl
  drop-set (x ∷ xs) (suc i) v = drop-set xs i v

  pub take-suc :
      (xs : List A) (i : ℕ) (v : A)
      → get_elem? xs i ≡ some v
      → take (suc i) xs ≡ take i xs ++ v ∷ []
  take-suc [] i v e = cc
  take-suc (x ∷ xs) zero v e = ap (λ k. k ∷ []) (some-injective _ _ e)
  take-suc (x ∷ xs) (suc i) v e = ap (λ l. x ∷ l) (take-suc xs i v e)

  pub drop-get_elem? :
      (xs : List A) (i : ℕ) (v : A) → get_elem? xs i ≡ some v → drop i xs ≡ v ∷ drop (suc i) xs
  drop-get_elem? [] i v e = cc
  drop-get_elem? (x ∷ xs) zero v e = ap (λ k. k ∷ xs) (some-injective _ _ e)
  drop-get_elem? (x ∷ xs) (suc i) v e = drop-get_elem? xs i v e

  -- An array whose element at `i` is overwritten by the next one.
  pub take-shift :
      (xs : List A) (i k : ℕ) (v : A)
      → get_elem? xs (suc i) ≡ some v
      → take i xs ++ take (suc k) (drop (suc i) xs)
        ≡ take (suc i) (set xs i v) ++ take k (drop (suc (suc i)) (set xs i v))
  take-shift [] i k v e = cc
  take-shift (x ∷ []) zero k v e = cc
  take-shift (x ∷ y ∷ xs) zero k v e = ap (λ a. a ∷ take k xs) (some-injective _ _ e)
  take-shift (x ∷ xs) (suc i) k v e = ap (λ l. x ∷ l) (take-shift xs i k v e)

  pub set_self : (xs : List A) (i : ℕ) (v : A) → get_elem? xs i ≡ some v → set xs i v ≡ xs
  set_self [] i v e = refl
  set_self (x ∷ xs) zero v e = ap (λ a. a ∷ xs) (sym (some-injective _ _ e))
  set_self (x ∷ xs) (suc i) v e = ap (λ l. x ∷ l) (set_self xs i v e)

  -- What stands at an index, by what is left from there on.
  pub get_elem?-drop :
      (xs : List A) (i : ℕ) (v : A) (ys : List A) → drop i xs ≡ v ∷ ys → get_elem? xs i ≡ some v
  get_elem?-drop [] zero v ys e = cc
  get_elem?-drop [] (suc i) v ys e = cc
  get_elem?-drop (x ∷ xs) zero v ys e = ap (λ l. get_elem? l 0) e
  get_elem?-drop (x ∷ xs) (suc i) v ys e = get_elem?-drop xs i v ys e

  drop-suc : (xs : List A) (i : ℕ) (v : A) (ys : List A) → drop i xs ≡ v ∷ ys → drop (suc i) xs ≡ ys
  drop-suc [] zero v ys e = cc
  drop-suc [] (suc i) v ys e = cc
  drop-suc (x ∷ xs) zero v ys e = ap (drop 1) e
  drop-suc (x ∷ xs) (suc i) v ys e = drop-suc xs i v ys e

  pub drop-next :
      (xs : List A) (i : ℕ) (v : A) (ys : List A) → drop i xs ≡ v ∷ ys → drop (i + 1) xs ≡ ys
  drop-next xs i v ys e =
      let plus : i + 1 ≡ suc i = omega arith in ap (λ k. drop k xs) plus ∙ drop-suc xs i v ys e

  pub drop-behind :
      (xs ws : List A) (i : ℕ) (ys : List A) → drop i xs ≡ ws ++ ys → drop (i + length ws) xs ≡ ys
  drop-behind xs [] i ys e = let plus : i + 0 ≡ i = omega arith in ap (λ k. drop k xs) plus ∙ e
  drop-behind xs (w ∷ ws) i ys e =
      let plus : i + suc (length ws) ≡ i + 1 + length ws = omega arith in
      ap (λ k. drop k xs) plus ∙ drop-behind xs ws (i + 1) ys (drop-next xs i w (ws ++ ys) e)
