-- ===== src/Producers/Threads.antt =====
-- Threads that take turns in the critical sections of the two programs: a thread that moves leaves the
-- others as they were.
use comp.Base.{
  ℕ, zero, suc, ◌+◌, ◌≤◌, ◌≡◌, sym, ap, subst, ◌⊎◌, inl, inr, List, [], ◌∷◌, some, get_elem?, set,
  All, All-set, arith,
}
use mathlib.Core.Option.{some-injective}
use comp.Base.{total, total-set, le-total}
use comp.Producers.{Buffer}
use comp.Producers.Order.{Tidy}

module _ {T : Type 0} (f : T → ℕ) where
  module _ (P : T → Type 0) (outside : (t : T) → f t ≡ 0 → P t) where
    pub All-outside : (ts : List T) → total f ts ≡ 0 → All P ts
    All-outside [] e = tt
    All-outside (t ∷ ts) e = (outside t (omega (arith, e)), All-outside ts (omega (arith, e)))

    -- Where only one thread counts, the others are outside.
    All-alone :
        (ts : List T) (i : ℕ) (t t' : T)
        → get_elem? ts i ≡ some t
        → total f ts ≤ f t
        → P t'
        → All P (set ts i t')
    All-alone [] i t t' e le p = tt
    All-alone (u ∷ ts) zero t t' e le p =
        (p, All-outside ts (omega (arith, le, ap f (some-injective _ _ e))))
    All-alone (u ∷ ts) (suc i) t t' e le p =
        let own = le-total f ts i t e in
        (outside u (omega (arith, le, own)), All-alone ts i t t' e (omega (arith, le)) p)

module _ {T : Type 0} (inside : T → ℕ) (InPlace : T → Buffer → Type 0)
    (outside : (t : T) (b : Buffer) → inside t ≡ 0 → InPlace t b) where
  -- `lock` is 1 when it is free. One thread at most is inside; it is in its place, and while there is
  -- none the buffer is tidy.
  pub record Guarded (lock : ℕ) (b : Buffer) (ts : List T) : Type 0 where
    pub exclusive : lock + total inside ts ≡ 1
    pub places : All (λ t. InPlace t b) ts
    pub tidy : lock ≡ 1 → Tidy b

  pub record Moves (lock : ℕ) (b : Buffer) (t : T) (lock' : ℕ) (b' : Buffer) (t' : T) : Type 0 where
    pub count : lock' + inside t' ≡ lock + inside t
    pub place : InPlace t' b'
    pub tidy : lock' ≡ 1 → Tidy b'
    pub others : (b' ≡ b) ⊎ (inside t ≡ 1)

  module _ (lock : ℕ) (b : Buffer) (ts : List T) (i : ℕ) (t : T) (lock' : ℕ) (b' : Buffer) (t' : T)
      (e : get_elem? ts i ≡ some t) (g : Guarded lock b ts) where
    places-set : InPlace t' b' → (b' ≡ b) ⊎ (inside t ≡ 1) → All (λ u. InPlace u b') (set ts i t')
    places-set p (inl same) =
        All-set (λ u. InPlace u b') ts i t'
          (subst (λ k. All (λ u. InPlace u k) ts) (sym same) g.places) p
    places-set p (inr one) =
        All-alone inside (λ u. InPlace u b') (λ u. outside u b') ts i t t' e
          (omega (arith, g.exclusive, one)) p

    pub Guarded-set : Moves lock b t lock' b' t' → Guarded lock' b' (set ts i t')
    Guarded-set m = record {
      exclusive =
          omega
            (arith, g.exclusive, total-set inside ts i t t' e, m.count, le-total inside ts i t e);
      places = places-set m.place m.others;
      tidy = m.tidy;
    }
