-- ===== src/Base/Totals.antt =====
-- A sum over a list of which one element is replaced.
use Prim.Native.Nat.{ℕ, zero, suc, ◌+◌, ◌≤◌}
use mathlib.Core.Path.{◌≡◌, ap}
use mathlib.Core.List.{List, [], ◌∷◌, ◌++◌}
use mathlib.Core.Option.{some, some-injective}
use native.Mathlib.Omega.{arith}
use comp.Base.Lists.{get_elem?, set}

module _ {T : Type 0} (f : T → ℕ) where
  abbrev pub total : List T → ℕ
  total [] = 0
  total (t ∷ ts) = f t + total ts

  pub total-set :
      (ts : List T) (i : ℕ) (t t' : T)
      → get_elem? ts i ≡ some t
      → total (set ts i t') + f t ≡ total ts + f t'
  total-set [] i t t' e = cc
  total-set (u ∷ ts) zero t t' e = omega (arith, ap f (some-injective _ _ e))
  total-set (u ∷ ts) (suc i) t t' e = omega (arith, total-set ts i t t' e)

  pub le-total : (ts : List T) (i : ℕ) (t : T) → get_elem? ts i ≡ some t → f t ≤ total ts
  le-total [] i t e = cc
  le-total (u ∷ ts) zero t e = omega (arith, ap f (some-injective _ _ e))
  le-total (u ∷ ts) (suc i) t e = omega (arith, le-total ts i t e)

  pub total-append : (ts : List T) (t : T) → total (ts ++ t ∷ []) ≡ total ts + f t
  total-append [] t = omega arith
  total-append (u ∷ ts) t = omega (arith, total-append ts t)
