-- ===== src/Server.antt =====
-- project2/server.c and game-protocol.h: the thread that plays a game with a client. read(), write()
-- and rand() are parameters, and so are the texts that are shown to the client.
pub mod Serving
pub mod Session
pub mod Routine
pub mod Run
pub mod Accept
pub mod Receiving
pub mod Startup
pub mod Shutdown
use comp.Base.{
  ℕ, zero, suc, ◌+◌, ◌-◌, List, [], ◌∷◌, ◌++◌, Option, none, some, Bool, true, false, ◌&&◌, ◌||◌,
  ltb, ◌==◌, if◌then◌else◌, length, drop, Outcome, ok, no_fuel, ◌>>=◌,
}
use comp.SecretCode.{
  secret_code_len, is_valid_secret_code, get_random_secret_code, get_secret_code_guess_feedback,
}
use comp.Messages.{
  WriteResult, SendStatus, sent, write_conn_lost_error, write_other_error, send_message,
  receive_message,
}

abbrev pub gp_size : ℕ
gp_size = 192

abbrev pub max_guesses_count : ℕ
max_guesses_count = 10

-- The seven letters of each message type.
abbrev pub gp_disp_msg : List ℕ
gp_disp_msg = 68 ∷ 73 ∷ 83 ∷ 80 ∷ 77 ∷ 83 ∷ 71 ∷ []

abbrev pub gp_guess_req : List ℕ
gp_guess_req = 82 ∷ 69 ∷ 81 ∷ 85 ∷ 69 ∷ 83 ∷ 84 ∷ []

abbrev pub gp_guess_fbk : List ℕ
gp_guess_fbk = 70 ∷ 69 ∷ 69 ∷ 68 ∷ 66 ∷ 65 ∷ 67 ∷ []

abbrev pub gp_guess_inv : List ℕ
gp_guess_inv = 73 ∷ 78 ∷ 86 ∷ 65 ∷ 76 ∷ 73 ∷ 68 ∷ []

abbrev pub gp_game_succ : List ℕ
gp_game_succ = 83 ∷ 85 ∷ 67 ∷ 67 ∷ 69 ∷ 83 ∷ 83 ∷ []

abbrev pub gp_game_fail : List ℕ
gp_game_fail = 70 ∷ 65 ∷ 73 ∷ 76 ∷ 85 ∷ 82 ∷ 69 ∷ []

abbrev pub gp_serv_full : List ℕ
gp_serv_full = 83 ∷ 69 ∷ 82 ∷ 86 ∷ 70 ∷ 85 ∷ 76 ∷ []

-- The lines of the log file, without the time and the address.
pub data LogEntry : Type 0 where
  client_connected client_disconnected connection_unexpectedly_closed failed_to_send
        failed_to_receive :
      LogEntry
  success_game_over failure_game_over : LogEntry
  server_full failed_to_create_thread : LogEntry
  server_started server_shutdown : LogEntry
  clients_connected clients_guessed : ℕ → LogEntry
  user_time kernel_time : ℕ → LogEntry
  peak_memory current_memory : ℕ → LogEntry
  server_secret : List ℕ → LogEntry
  client_guess : List ℕ → LogEntry
  server_hint : ℕ → ℕ → LogEntry

-- What the threads share. `clients_now_count` is the number of its increments less that of its
-- decrements.
pub record Shared : Type 0 where
  pub clients_now_increments : ℕ
  pub clients_now_decrements : ℕ
  pub clients_count : ℕ
  pub clients_win_count : ℕ
  pub log : List LogEntry

pub record World (S : Type 0) : Type 0 where
  pub socket : S
  pub is_open : Bool
  pub shared : Shared

-- A thread goes on with a value, or has ended by pthread_exit().
pub data Thread (S A : Type 0) : Type 0 where
  goes_on : A → World S → Thread S A
  exits : World S → Thread S A

module _ {S : Type 0} where
  increment_clients_now_count : World S → World S
  increment_clients_now_count w = record w {
    shared = record (w.shared) { clients_now_increments = (w.shared).clients_now_increments + 1 };
  }

  decrement_clients_now_count : World S → World S
  decrement_clients_now_count w = record w {
    shared = record (w.shared) { clients_now_decrements = (w.shared).clients_now_decrements + 1 };
  }

  increment_clients_count : World S → World S
  increment_clients_count w = record w {
    shared = record (w.shared) { clients_count = (w.shared).clients_count + 1 };
  }

  increment_clients_win_count : World S → World S
  increment_clients_win_count w = record w {
    shared = record (w.shared) { clients_win_count = (w.shared).clients_win_count + 1 };
  }

  print_log : LogEntry → World S → World S
  print_log e w = record w { shared = record (w.shared) { log = (w.shared).log ++ e ∷ [] } }

  close_socket : World S → World S
  close_socket w = record w { is_open = false }

  -- What follows is done only if the thread goes on.
  abbrev pub and_then :
      {A B : Type 0}
      → Outcome (Thread S A)
      → (A → World S → Outcome (Thread S B))
      → Outcome (Thread S B)
  and_then (ok (goes_on a w)) f = f a w
  and_then (ok (exits w)) f = ok (exits w)
  and_then Outcome.undefined f = Outcome.undefined
  and_then no_fuel f = no_fuel

-- strcmp(...) == 0.
unfoldable pub same_text : List ℕ → List ℕ → Bool
same_text [] [] = true
same_text (x ∷ xs) (y ∷ ys) = x == y && same_text xs ys
same_text _ _ = false

unfoldable pub zeros : ℕ → List ℕ
zeros zero = []
zeros (suc n) = 0 ∷ zeros n

unfoldable pub text_of : List ℕ → Option (List ℕ) → List ℕ
unfolding same_text
text_of msg_type none = msg_type
text_of msg_type (some payload) =
    if same_text msg_type gp_disp_msg || same_text msg_type gp_guess_fbk
    then msg_type ++ payload
    else msg_type

-- The buffer, cleared and printed to.
unfoldable pub compose : List ℕ → Option (List ℕ) → List ℕ
unfolding text_of zeros
compose msg_type payload =
    text_of msg_type payload ++ zeros (gp_size - length (text_of msg_type payload))

-- The code of the game is the given one if it is valid, and else a random one.
pub game_code : (ℕ → ℕ) → List ℕ → Outcome (List ℕ)
game_code rand given =
    is_valid_secret_code given >>= elim [ true ↦ ok given | false ↦ get_random_secret_code rand ]

module _ {S : Type 0} (read : S → ℕ → Option (List ℕ) × S)
    (write : S → List ℕ → WriteResult × S) where
  -- After the send: the thread goes on with the buffer, or logs, closes the socket and ends.
  after_send : List ℕ → SendStatus → World S → Thread S (List ℕ)
  unfolding print_log close_socket decrement_clients_now_count
  after_send buffer (sent n) w = goes_on buffer w
  after_send buffer write_conn_lost_error w =
      exits
        (decrement_clients_now_count (close_socket (print_log connection_unexpectedly_closed w)))
  after_send buffer write_other_error w = exits (
      decrement_clients_now_count
        (print_log client_disconnected (close_socket (print_log failed_to_send w))))

  pub send_gp_message : List ℕ → Option (List ℕ) → World S → Outcome (Thread S (List ℕ))
  unfolding compose after_send
  send_gp_message msg_type payload w =
      let buffer = compose msg_type payload in
      let (status, s') = send_message write buffer w.socket in
      ok (after_send buffer status (record w { socket = s' }))

  -- The inner loop: receive until the buffer has a valid guess, `fuel` times at most. What is not
  -- received stays as it was in the buffer.
  pub receive_guess : ℕ → List ℕ → World S → Outcome (Thread S (List ℕ))
  unfolding send_gp_message
  receive_guess zero buffer w = no_fuel
  receive_guess (suc fuel) buffer w =
      let (result, (bytes, s')) = receive_message read gp_size w.socket in
      let now = bytes ++ drop (length bytes) buffer in
      let received = record w { socket = s' } in
      is_valid_secret_code now >>= elim [
        | true ↦ ok (goes_on now received)
        | false ↦
            and_then (send_gp_message gp_guess_inv none received)
              (λ sent_buffer w'. receive_guess fuel sent_buffer w')
      ]

  module _ (feedback_message : ℕ → ℕ → ℕ → List ℕ) where
    -- The rest of a turn, once there is a guess: the feedback is logged and sent. The value is the
    -- number of correct positions.
    pub answer_guess : List ℕ → ℕ → List ℕ → World S → Outcome (Thread S ℕ)
    unfolding print_log send_gp_message
    answer_guess secret_code guesses_count guess w =
        get_secret_code_guess_feedback secret_code guess >>= λ f.
        and_then
          (send_gp_message gp_guess_fbk
            (some (
              feedback_message (guesses_count + 1) f.correct_positions_count
                f.correct_colors_count))
            (print_log (server_hint f.correct_positions_count f.correct_colors_count)
              (print_log (client_guess guess) w)))
          (λ buffer w'. ok (goes_on f.correct_positions_count w'))

    -- The loop over the guesses, with `left` of them left.
    pub play : ℕ → ℕ → List ℕ → ℕ → ℕ → World S → Outcome (Thread S ℕ)
    unfolding answer_guess receive_guess send_gp_message
    play fuel zero secret_code guesses_count correct w = ok (goes_on correct w)
    play fuel (suc left) secret_code guesses_count correct w = elim (ltb correct secret_code_len) [
      | false ↦ ok (goes_on correct w)
      | true ↦ and_then (send_gp_message gp_guess_req none w) (λ buffer w1.
          and_then (receive_guess fuel buffer w1) (λ guess w2.
            and_then (answer_guess secret_code guesses_count guess w2)
              (λ now w3. play fuel left secret_code (guesses_count + 1) now w3)))
    ]

    -- The result of the game is counted, logged and sent.
    pub tell_result : Bool → World S → Outcome (Thread S (List ℕ))
    unfolding print_log increment_clients_win_count send_gp_message
    tell_result true w =
        send_gp_message gp_game_succ none
          (print_log success_game_over (increment_clients_win_count w))
    tell_result false w = send_gp_message gp_game_fail none (print_log failure_game_over w)

    -- After the game: the result, and the client is let go.
    pub finish : ℕ → World S → Outcome (Thread S Unit)
    unfolding print_log close_socket decrement_clients_now_count tell_result
    finish correct w = and_then (tell_result (correct == secret_code_len) w) (λ buffer w'. ok (
        goes_on tt (decrement_clients_now_count (print_log client_disconnected (close_socket w')))))

    module _ (welcome_message instructions_1_message instructions_2_message : List ℕ) where
      pub greet : World S → Outcome (Thread S (List ℕ))
      unfolding send_gp_message
      greet w = and_then (send_gp_message gp_disp_msg (some welcome_message) w) (λ _ w1.
          and_then (send_gp_message gp_disp_msg (some instructions_1_message) w1)
            (λ _ w2. send_gp_message gp_disp_msg (some instructions_2_message) w2))

      unfoldable pub pthread_routine : ℕ → (ℕ → ℕ) → List ℕ → World S → Outcome (Thread S Unit)
      unfolding print_log increment_clients_now_count increment_clients_count greet play finish
          game_code
      pthread_routine fuel rand given w =
          let entered =
            increment_clients_count (increment_clients_now_count (print_log client_connected w)) in
          game_code rand given >>= λ secret_code.
          and_then (greet (print_log (server_secret secret_code) entered))
            (λ _ w1. and_then (play fuel max_guesses_count secret_code 0 0 w1) finish)
