-- ===== src/Examples/Clients.antt =====
-- Clients that come to the server of project2/server.c, and instances of the theorems about the loop that
-- accepts them.
use comp.Base.{
  ◌⊎◌, inl, refl, ℕ, ◌≡◌, List, [], ◌∷◌, Option, none, some, true, false, no_fuel, length, ok,
}
use comp.Messages.{WriteResult, written}
use comp.Client.{Session, client_loop}
use comp.Client.Reactions.{client_loop_lost}
use comp.Server.Accept.{created, client, malloc_fails, Event, round, steps, listen, listener}
use comp.Server.Accept.Counts.{Continues, listen-Counted}
use comp.Server.Accept.Limit.{times, listen-times}

abbrev read_nothing : ℕ → ℕ → Option (List ℕ) × ℕ
read_nothing s n = (some [], s)

abbrev write_all : ℕ → List ℕ → WriteResult × ℕ
write_all s bytes = (written (length bytes), s)

-- Two clients come; the first is served and let go.
abbrev two_clients : List (Event ℕ)
two_clients =
    round (client 4 true)
    ∷ round malloc_fails
    ∷ steps 0
    ∷ round (client 5 true)
    ∷ steps 0
    ∷ steps 1
    ∷ []

listen-Counted_example : Continues (listen read_nothing write_all two_clients listener)
listen-Counted_example = listen-Counted read_nothing write_all two_clients

listen-times_example :
    listen read_nothing write_all (times 41 (round (client 4 true))) listener
    ≡ ok (record listener { threads = times 41 created })
listen-times_example = listen-times read_nothing write_all 4 41

abbrev read_lost : ℕ → ℕ → Option (List ℕ) × ℕ
read_lost s n = (none, s)

read_lost-nothing : (s n : ℕ) → (read_lost s n ≡ (none, s)) ⊎ (read_lost s n ≡ (some [], s))
read_lost-nothing s n = inl refl

abbrev fgets_nothing : ℕ → List ℕ → List ℕ × ℕ
fgets_nothing i buffer = (buffer, i)

abbrev new_session : Session ℕ ℕ
new_session = record { socket = 4; input = 0; printed = []; is_end_game = false }

client_loop_lost_example : client_loop read_lost write_all fgets_nothing 20 new_session ≡ no_fuel
client_loop_lost_example =
    client_loop_lost read_lost write_all fgets_nothing read_lost-nothing 20 new_session refl
