-- ===== src/Examples/Games.antt =====
-- A game of project2/server.c, and an instance of the theorem about its thread.
use comp.Base.{ℕ, ◌≡◌, refl, List, [], ◌∷◌, Option, some, true, length, arith, Outcome, ok}
use comp.SecretCode.{is_valid_secret_code, get_secret_code_guess_feedback}
use comp.Messages.{WriteResult, written, send_message, send_loop, receive_message, receive_loop}
use comp.Server.{Shared, World, Thread, goes_on, exits, pthread_routine}
use comp.Server.Run.{RunResult, pthread_routine_lem}

-- A client that sends each of its guesses in one piece, the last of them for ever.
abbrev read_guess : List (List ℕ) → ℕ → Option (List ℕ) × List (List ℕ)
read_guess [] n = (some [], [])
read_guess (g ∷ []) n = (some g, g ∷ [])
read_guess (g ∷ h ∷ s) n = (some g, h ∷ s)

abbrev write_all : List (List ℕ) → List ℕ → WriteResult × List (List ℕ)
write_all s bytes = (written (length bytes), s)

abbrev no_clients : Shared
no_clients = record {
  clients_now_increments = 0;
  clients_now_decrements = 0;
  clients_count = 0;
  clients_win_count = 0;
  log = [];
}

abbrev one_client : World (List (List ℕ))
one_client = record {
  socket = (65 ∷ 65 ∷ 66 ∷ 66 ∷ 0 ∷ []) ∷ [];
  is_open = true;
  shared = no_clients;
}

abbrev given_code : List ℕ
given_code = 65 ∷ 65 ∷ 66 ∷ 66 ∷ 0 ∷ []

abbrev counters : {A : Type 0} → Outcome (Thread (List (List ℕ)) A) → List ℕ
counters (ok (goes_on a w)) =
    (w.shared).clients_now_increments
    ∷ (w.shared).clients_now_decrements
    ∷ (w.shared).clients_count
    ∷ (w.shared).clients_win_count
    ∷ []
counters (ok (exits w)) = []
counters Outcome.undefined = []
counters Outcome.no_fuel = []

won_game :
    counters (
      pthread_routine read_guess write_all
        (λ i p c. i ∷ p ∷ c ∷ [])
        []
        []
        []
        1
        (λ k. k)
        given_code
        one_client)
    ≡ 1 ∷ 1 ∷ 1 ∷ 1 ∷ []
unfolding pthread_routine is_valid_secret_code get_secret_code_guess_feedback send_message
    receive_message send_loop receive_loop
won_game = refl

pthread_routine_lem_example : RunResult no_clients (
    pthread_routine read_guess write_all
      (λ i p c. i ∷ p ∷ c ∷ [])
      []
      []
      []
      1
      (λ k. k)
      given_code
      one_client)
pthread_routine_lem_example =
    pthread_routine_lem read_guess write_all (λ i p c. i ∷ p ∷ c ∷ []) [] [] [] 1 (λ k. k)
      given_code one_client refl (omega arith)
