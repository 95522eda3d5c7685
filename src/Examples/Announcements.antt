-- ===== src/Examples/Announcements.antt =====
-- An instance of the theorem about main() of workshop/signal-prime-number.c.
use comp.Base.{ℕ, suc, ◌≡◌, refl, List, [], ◌∷◌, ◌++◌, true, map, length, arith, ok}
use comp.Primes.Announcing.{number, no_number, System, Parent, returns, main, handle_signals}
use comp.Primes.Announcing.Told.{IsReliable, Announced, child, main-Announced}

abbrev system : System ℕ
system = record { signal = λ s k. (true, k); fork = λ k. (true, k); kill = λ s k. (true, k) }

system-IsReliable : IsReliable system
system-IsReliable = record { signals = λ s k. refl; forks = λ k. refl; kills = λ s k. refl }

abbrev entered : List ℕ
entered = 7 ∷ 8 ∷ 91 ∷ 13 ∷ []

main-Announced_example :
    (p : Parent ℕ) × (main system 9 (map number entered ++ no_number ∷ number 5 ∷ []) 0
      ≡ ok (returns 0 p))
    × Announced entered p.sent
    × ((handle_signals p.sent (child 0)).has_ended ≡ true)
    × (suc (handle_signals p.sent (child 0)).printed ≡ length p.sent)
main-Announced_example =
    main-Announced system system-IsReliable entered (number 5 ∷ []) 9 0 (omega arith)
