-- ===== src/SecretCode/Tally.antt =====
-- How many characters two codes share, colour by colour.
use native.Mathlib.Decide.{ℕ_discrete}
use comp.Base.{
  ℕ, ◌+◌, ◌≤◌, ◌≡◌, ap, List, [], ◌∷◌, length, leb, ◌==◌, if◌then◌else◌, All, arith, refl,
}

-- How often a colour stands in a code.
abbrev pub count : ℕ → List ℕ → ℕ
count c [] = 0
count c (x ∷ xs) = (if c == x then 1 else 0) + count c xs

abbrev min : ℕ → ℕ → ℕ
min a b = if leb a b then a else b

-- The sum over the colours of how often a colour stands in both codes.
abbrev pub tally : List ℕ → List ℕ → List ℕ → ℕ
tally [] xs ys = 0
tally (c ∷ cs) xs ys = min (count c xs) (count c ys) + tally cs xs ys

-- Each character of the code is one of the colours, which stands among them once.
abbrev pub IsOver : List ℕ → List ℕ → Type 0
IsOver cs = All (λ x. count x cs ≡ 1)

pub tally_nil : (cs ys : List ℕ) → tally cs [] ys ≡ 0
tally_nil [] ys = refl
tally_nil (c ∷ cs) ys = ground (arith, tally_nil cs ys)

pub tally_both :
    (cs : List ℕ) (x : ℕ) (xs ys zs : List ℕ)
    → ((c : ℕ) → count c zs ≡ (if c == x then 1 else 0) + count c ys)
    → tally cs (x ∷ xs) zs ≡ count x cs + tally cs xs ys
tally_both [] x xs ys zs h = refl
tally_both (c ∷ cs) x xs ys zs h = ground (arith, tally_both cs x xs ys zs h, h c)

pub tally_absent :
    (cs : List ℕ) (x : ℕ) (xs ys : List ℕ) → count x ys ≡ 0 → tally cs (x ∷ xs) ys ≡ tally cs xs ys
tally_absent [] x xs ys h = refl
tally_absent (c ∷ cs) x xs ys h = elim (ℕ_discrete c x) [
  | yes e ↦ ground (arith, tally_absent cs x xs ys h, ap (λ i. count i ys) e)
  | no ne ↦ ground (arith, tally_absent cs x xs ys h)
]

-- The characters of a code, counted colour by colour.
abbrev total : List ℕ → List ℕ → ℕ
total [] xs = 0
total (c ∷ cs) xs = count c xs + total cs xs

total_cons : (cs : List ℕ) (x : ℕ) (xs : List ℕ) → total cs (x ∷ xs) ≡ count x cs + total cs xs
total_cons [] x xs = refl
total_cons (c ∷ cs) x xs = ground (arith, total_cons cs x xs)

total_nil : (cs : List ℕ) → total cs [] ≡ 0
total_nil [] = refl
total_nil (c ∷ cs) = omega (arith, total_nil cs)

total-length : (cs xs : List ℕ) → IsOver cs xs → total cs xs ≡ length xs
total-length cs [] h = total_nil cs
total-length cs (x ∷ xs) h = omega (arith, total_cons cs x xs, total-length cs xs h.1, h.0)

-- Characters that both codes have add their number to the tally.
tally_common :
    (cs ms xs ys xs' ys' : List ℕ)
    → ((c : ℕ) → count c xs' ≡ count c ms + count c xs)
    → ((c : ℕ) → count c ys' ≡ count c ms + count c ys)
    → tally cs xs' ys' ≡ total cs ms + tally cs xs ys
tally_common [] ms xs ys xs' ys' h k = refl
tally_common (c ∷ cs) ms xs ys xs' ys' h k =
    ground (arith, tally_common cs ms xs ys xs' ys' h k, h c, k c)

pub tally-length :
    (cs ms xs ys xs' ys' : List ℕ)
    → IsOver cs ms
    → ((c : ℕ) → count c xs' ≡ count c ms + count c xs)
    → ((c : ℕ) → count c ys' ≡ count c ms + count c ys)
    → tally cs xs' ys' ≡ length ms + tally cs xs ys
tally-length cs ms xs ys xs' ys' o h k =
    omega (arith, tally_common cs ms xs ys xs' ys' h k, total-length cs ms o)

tally-le-total : (cs xs ys : List ℕ) → tally cs xs ys ≤ total cs xs
tally-le-total [] xs ys = omega arith
tally-le-total (c ∷ cs) xs ys = ground (arith, tally-le-total cs xs ys)

pub tally-le-length : (cs xs ys : List ℕ) → IsOver cs xs → tally cs xs ys ≤ length xs
tally-le-length cs xs ys h = omega (arith, tally-le-total cs xs ys, total-length cs xs h)
