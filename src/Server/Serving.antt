-- ===== src/Server/Serving.antt =====
-- What holds while a thread of project2/server.c serves its client, and once it has let it go.
use comp.Base.{
  ℕ, zero, suc, ◌+◌, ◌-◌, ◌≤◌, ◌≡◌, refl, List, [], ◌∷◌, ◌++◌, Option, true, false, length,
  length-append, arith, Outcome, ok, no_fuel,
}
use comp.Messages.{
  WriteResult, SendStatus, sent, write_conn_lost_error, write_other_error, send_message,
}
use comp.Server.{
  gp_size, max_guesses_count, LogEntry, client_disconnected, server_hint, Shared, World, Thread,
  goes_on, exits, and_then, zeros, compose, text_of, after_send, send_gp_message,
}

abbrev pub is_hint : LogEntry → ℕ
is_hint (server_hint p c) = 1
is_hint _ = 0

-- How many guesses were answered.
abbrev pub hints : List LogEntry → ℕ
hints [] = 0
hints (e ∷ log) = is_hint e + hints log

pub hints_append :
    (log : List LogEntry) (e : LogEntry) → hints (log ++ e ∷ []) ≡ hints log + is_hint e
hints_append [] e = omega arith
hints_append (x ∷ log) e = omega (arith, hints_append log e)

-- A buffer is long enough to be read as a code.
abbrev pub IsBuffer : List ℕ → Type 0
IsBuffer buffer = 5 ≤ length buffer

length-zeros : (n : ℕ) → length (zeros n) ≡ n
unfolding zeros
length-zeros zero = refl
length-zeros (suc n) = omega (arith, length-zeros n)

compose-IsBuffer :
    (msg_type : List ℕ) (payload : Option (List ℕ)) → IsBuffer (compose msg_type payload)
unfolding compose
compose-IsBuffer msg_type payload = omega (
  arith,
  length-append (text_of msg_type payload) (zeros (gp_size - length (text_of msg_type payload))),
  length-zeros (gp_size - length (text_of msg_type payload)),
)

module _ {S : Type 0} (before : Shared) where
  -- The thread serves its client: it has answered `guesses` guesses at most, and counted `wins` wins.
  pub record IsServing (guesses wins : ℕ) (w : World S) : Type 0 where
    pub opened : w.is_open ≡ true
    pub entered : (w.shared).clients_now_increments ≡ suc before.clients_now_increments
    pub stays : (w.shared).clients_now_decrements ≡ before.clients_now_decrements
    pub counted : (w.shared).clients_count ≡ suc before.clients_count
    pub won : (w.shared).clients_win_count ≡ before.clients_win_count + wins
    pub answered : hints (w.shared).log ≤ hints before.log + guesses

  -- The thread has let its client go.
  pub record HasLeft (w : World S) : Type 0 where
    pub closed : w.is_open ≡ false
    pub entered : (w.shared).clients_now_increments ≡ suc before.clients_now_increments
    pub left : (w.shared).clients_now_decrements ≡ suc before.clients_now_decrements
    pub counted : (w.shared).clients_count ≡ suc before.clients_count
    pub won_no_less : before.clients_win_count ≤ (w.shared).clients_win_count
    pub won_once : (w.shared).clients_win_count ≤ suc before.clients_win_count
    pub answered : hints (w.shared).log ≤ hints before.log + max_guesses_count

  abbrev pub Good : {A : Type 0} → (A → World S → Type 0) → Outcome (Thread S A) → Type 0
  Good G (ok (goes_on a w)) = G a w
  Good G (ok (exits w)) = HasLeft w
  Good G Outcome.undefined = ⊥
  Good G no_fuel = Unit

  pub and_then-Good :
      {A B : Type 0} (G : A → World S → Type 0) (H : B → World S → Type 0)
      (o : Outcome (Thread S A)) (f : A → World S → Outcome (Thread S B))
      → Good G o
      → ((a : A) (w : World S) → G a w → Good H (f a w))
      → Good H (and_then o f)
  and_then-Good G H (ok (goes_on a w)) f g h = h a w g
  and_then-Good G H (ok (exits w)) f g h = g
  and_then-Good G H Outcome.undefined f g h = g
  and_then-Good G H no_fuel f g h = g

  abbrev pub Sent : ℕ → ℕ → List ℕ → World S → Type 0
  Sent guesses wins buffer w = IsBuffer buffer × IsServing guesses wins w

  module _ (read : S → ℕ → Option (List ℕ) × S) (write : S → List ℕ → WriteResult × S)
      (guesses wins : ℕ) (few : guesses ≤ max_guesses_count) (once : wins ≤ 1) where
    after_send-Good :
        (buffer : List ℕ) (status : SendStatus) (w : World S)
        → IsBuffer buffer
        → IsServing guesses wins w
        → Good (Sent guesses wins) (ok (after_send read write buffer status w))
    unfolding after_send
    after_send-Good buffer (sent n) w b h = (b, h)
    after_send-Good buffer write_conn_lost_error w b h = record {
      closed = refl;
      entered = h.entered;
      left = omega (arith, h.stays);
      counted = h.counted;
      won_no_less = omega (arith, h.won);
      won_once = omega (arith, h.won);
      answered =
          omega (
            arith,
            h.answered,
            hints_append (w.shared).log LogEntry.connection_unexpectedly_closed,
          );
    }
    after_send-Good buffer write_other_error w b h = record {
      closed = refl;
      entered = h.entered;
      left = omega (arith, h.stays);
      counted = h.counted;
      won_no_less = omega (arith, h.won);
      won_once = omega (arith, h.won);
      answered = omega (
        arith,
        h.answered,
        hints_append (w.shared).log LogEntry.failed_to_send,
        hints_append ((w.shared).log ++ LogEntry.failed_to_send ∷ []) client_disconnected,
      );
    }

    pub moved :
        (w : World S) (s' : S)
        → IsServing guesses wins w
        → IsServing guesses wins (record w { socket = s' })
    moved w s' h = record {
      opened = h.opened;
      entered = h.entered;
      stays = h.stays;
      counted = h.counted;
      won = h.won;
      answered = h.answered;
    }

    pub send_gp_message-Good :
        (msg_type : List ℕ) (payload : Option (List ℕ)) (w : World S)
        → IsServing guesses wins w
        → Good (Sent guesses wins) (send_gp_message read write msg_type payload w)
    unfolding send_gp_message
    send_gp_message-Good msg_type payload w h =
        let (status, s') = send_message write (compose msg_type payload) w.socket in
        after_send-Good (compose msg_type payload) status (record w { socket = s' })
          (compose-IsBuffer msg_type payload) (moved w s' h)
