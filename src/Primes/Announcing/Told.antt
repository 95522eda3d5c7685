-- ===== src/Primes/Announcing/Told.antt =====
-- What the child of workshop/signal-prime-number.c is told.
use mathlib.Core.List.{append_assoc}
use comp.Base.{
  ℕ, zero, suc, ◌+◌, ◌<◌, ◌≡◌, ◌∙◌, refl, sym, inl, inr, List, [], ◌∷◌, ◌++◌, none, some, true,
  false, map, length, arith, Outcome, ok, Bool-cases, subst,
}
use comp.Primes.{isprimeno, IsPrime, isprimeno_lem}
use comp.Primes.Announcing.{
  Signal, sigusr1, sigusr2, Scanned, number, no_number, System, Parent, Progress, returns, scanf,
  send, announce, after_scanf, parent_loop, require, main, Child, sighandler, handle_signals,
}

pub record IsReliable {K : Type 0} (system : System K) : Type 0 where
  pub signals : (s : Signal) (k : K) → (system.signal s k).0 ≡ true
  pub forks : (k : K) → (system.fork k).0 ≡ true
  pub kills : (s : Signal) (k : K) → (system.kill s k).0 ≡ true

-- One signal for each prime among the numbers, and one at the end.
pub data Announced : List ℕ → List Signal → Type 0 where
  over : Announced [] (sigusr2 ∷ [])
  prime :
      {n : ℕ} {ns : List ℕ} {signals : List Signal}
      → IsPrime n
      → Announced ns signals
      → Announced (n ∷ ns) (sigusr1 ∷ signals)
  other :
      {n : ℕ} {ns : List ℕ} {signals : List Signal}
      → ¬ IsPrime n
      → Announced ns signals
      → Announced (n ∷ ns) signals

not-IsPrime : (n : ℕ) → isprimeno n ≡ false → ¬ IsPrime n
not-IsPrime n e i = cc ((isprimeno_lem n).1 i)

-- A child that has printed so many lines and goes on.
abbrev pub child : ℕ → Child
child printed = record { printed = printed; has_ended = false }

handle_signals_lem :
    {ns : List ℕ} {signals : List Signal}
    → Announced ns signals
    → (printed : ℕ)
    → ((handle_signals signals (child printed)).has_ended ≡ true)
      × (suc (handle_signals signals (child printed)).printed ≡ printed + length signals)
unfolding handle_signals sighandler
handle_signals_lem over printed = (refl, omega arith)
handle_signals_lem (prime i a) printed =
    let (ended, count) = handle_signals_lem a (printed + 1) in (ended, omega (arith, count))
handle_signals_lem (other i a) printed = handle_signals_lem a printed

module _ {K : Type 0} (system : System K) (reliable : IsReliable system) where
  -- The parent has returned 0 after these signals.
  record Tells (o : Outcome (Progress K)) (before : List Signal) (ns : List ℕ) : Type 0 where
    after : Parent K
    result : o ≡ ok (returns 0 after)
    signals : List Signal
    sent : after.sent ≡ before ++ signals
    announced : Announced ns signals

  loop-Tells :
      (ns : List ℕ) (rest : List Scanned) (fuel : ℕ) (p : Parent K)
      → length ns < fuel
      → Tells (parent_loop system fuel (map number ns ++ no_number ∷ rest) p) p.sent ns
  unfolding parent_loop after_scanf announce send
  loop-Tells ns rest zero p h = absurd (omega (arith, h))
  loop-Tells [] rest (suc fuel) p h = record {
    after = record p { kernel = (system.kill sigusr2 p.kernel).1; sent = p.sent ++ sigusr2 ∷ [] };
    result = simp (reliable.kills sigusr2 p.kernel);
    signals = sigusr2 ∷ [];
    sent = refl;
    announced = over;
  }
  loop-Tells (n ∷ ns) rest (suc fuel) p h = elim (Bool-cases (isprimeno n)) [
    | inl e ↦
        let p' = record p {
          n = some n;
          kernel = (system.kill sigusr1 p.kernel).1;
          sent = p.sent ++ sigusr1 ∷ [];
        } in
        let t = loop-Tells ns rest fuel p' (omega (arith, h)) in
        record {
          after = t.after;
          result = simp (e, reliable.kills sigusr1 p.kernel) t.result;
          signals = sigusr1 ∷ t.signals;
          sent = t.sent ∙ append_assoc p.sent (sigusr1 ∷ []) t.signals;
          announced = prime ((isprimeno_lem n).0 e) t.announced;
        }
    | inr e ↦
        let t = loop-Tells ns rest fuel (record p { n = some n }) (omega (arith, h)) in
        record {
          after = t.after;
          result = simp e t.result;
          signals = t.signals;
          sent = t.sent;
          announced = other (not-IsPrime n e) t.announced;
        }
  ]

  -- While the calls of the system succeed: for numbers that are entered, and something else behind them, the
  -- parent returns 0 and has sent the child one signal for each prime among the numbers, in their order, and
  -- the signal of the end behind them. A child that handles each of these before the next one comes prints
  -- a line for each prime and ends.
  pub main-Announced :
      (ns : List ℕ) (rest : List Scanned) (fuel : ℕ) (k : K)
      → length ns < fuel
      → (p : Parent K) × (main system fuel (map number ns ++ no_number ∷ rest) k ≡ ok (returns 0 p))
        × Announced ns p.sent
        × ((handle_signals p.sent (child 0)).has_ended ≡ true)
        × (suc (handle_signals p.sent (child 0)).printed ≡ length p.sent)
  unfolding main require
  main-Announced ns rest fuel k h =
      let k1 = (system.signal sigusr1 k).1 in
      let k2 = (system.signal sigusr2 k1).1 in
      let start : Parent K = record { kernel = (system.fork k2).1; n = none; sent = [] } in
      let t = loop-Tells ns rest fuel start h in
      let told : Announced ns (t.after).sent = subst (Announced ns) (sym t.sent) t.announced in
      let (ended, count) = handle_signals_lem told 0 in
      (
        t.after,
        simp (reliable.signals sigusr1 k, reliable.signals sigusr2 k1, reliable.forks k2) t.result,
        told,
        ended,
        omega (arith, count),
      )

  -- After the end of the input the last number is tested for ever.
  loop_at_end :
      (fuel n : ℕ) (k : K) (sent : List Signal)
      → parent_loop system fuel [] (record { kernel = k; n = some n; sent = sent })
        ≡ Outcome.no_fuel
  unfolding parent_loop scanf after_scanf announce send
  loop_at_end zero n k sent = refl
  loop_at_end (suc fuel) n k sent = elim (Bool-cases (isprimeno n)) [
    | inl b ↦
        simp (b, reliable.kills sigusr1 k)
          (loop_at_end fuel n (system.kill sigusr1 k).1 (sent ++ sigusr1 ∷ []))
    | inr b ↦ simp b (loop_at_end fuel n k sent)
  ]
