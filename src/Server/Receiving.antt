-- ===== src/Server/Receiving.antt =====
-- receive_raw_message() of project2/server.c.
use comp.Base.{ℕ, ◌+◌, ◌-◌, ◌≡◌, refl, List, ◌++◌, Option, none, some, false, length}
use comp.Messages.{receive_message}
use comp.Server.{
  gp_size, failed_to_receive, client_disconnected, World, Thread, goes_on, exits, print_log,
  close_socket, decrement_clients_now_count, zeros,
}

module _ {S : Type 0} (read : S → ℕ → Option (List ℕ) × S) where
  -- After the read: the size and the buffer, or the thread logs, closes the socket and ends.
  after_receive : Option ℕ → List ℕ → World S → Thread S (ℕ × List ℕ)
  unfolding print_log close_socket decrement_clients_now_count
  after_receive none buffer w = exits (
      decrement_clients_now_count
        (print_log client_disconnected (close_socket (print_log failed_to_receive w))))
  after_receive (some received_msg_size) buffer w = goes_on (received_msg_size, buffer) w

  -- The buffer is cleared first.
  pub receive_raw_message : World S → Thread S (ℕ × List ℕ)
  unfolding after_receive zeros
  receive_raw_message w =
      let (result, (bytes, s')) = receive_message read gp_size w.socket in
      after_receive result (bytes ++ zeros (gp_size - length bytes)) (record w { socket = s' })

  -- The thread lets its client go as after a failed send, or nothing of what the threads share changes.
  pub record LetGo (w w' : World S) : Type 0 where
    pub closed : w'.is_open ≡ false
    pub left : (w'.shared).clients_now_decrements ≡ (w.shared).clients_now_decrements + 1
    pub entered : (w'.shared).clients_now_increments ≡ (w.shared).clients_now_increments
    pub counted : (w'.shared).clients_count ≡ (w.shared).clients_count
    pub won : (w'.shared).clients_win_count ≡ (w.shared).clients_win_count

  abbrev Keeps : World S → Thread S (ℕ × List ℕ) → Type 0
  Keeps w (goes_on received w') = (w'.shared ≡ w.shared) × (w'.is_open ≡ w.is_open)
  Keeps w (exits w') = LetGo w w'

  after_receive_lem :
      (result : Option ℕ) (buffer : List ℕ) (w : World S) (s' : S)
      → Keeps w (after_receive result buffer (record w { socket = s' }))
  unfolding after_receive
  after_receive_lem none buffer w s' = record {
    closed = refl;
    left = refl;
    entered = refl;
    counted = refl;
    won = refl;
  }
  after_receive_lem (some n) buffer w s' = (refl, refl)

  -- Whatever is read, a thread that goes on has changed nothing that is shared and keeps its socket; one that
  -- ends has closed its socket and let its client go once.
  receive_raw_message_lem : (w : World S) → Keeps w (receive_raw_message w)
  unfolding receive_raw_message
  receive_raw_message_lem w =
      let (result, (bytes, s')) = receive_message read gp_size w.socket in
      after_receive_lem result (bytes ++ zeros (gp_size - length bytes)) w s'
