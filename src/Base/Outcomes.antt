-- ===== src/Base/Outcomes.antt =====
-- The outcome of code that can fail.
use mathlib.Core.Option.{Option, none, some}

-- `undefined` stands for a read through a pointer that was never assigned or that points nowhere,
-- `no_fuel` for a loop that has not ended yet.
pub data Outcome (A : Type 0) : Type 0 where
  ok : A → Outcome A
  undefined : Outcome A
  no_fuel : Outcome A

infixl 5 ◌>>=◌
abbrev pub ◌>>=◌ : {A B : Type 0} → Outcome A → (A → Outcome B) → Outcome B
ok a >>= f = f a
undefined >>= f = undefined
no_fuel >>= f = no_fuel

abbrev pub deref : {A : Type 0} → Option A → Outcome A
deref none = undefined
deref (some a) = ok a
