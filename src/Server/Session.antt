-- ===== src/Server/Session.antt =====
-- The exchange of one guess in `pthread_routine` of project2/server.c.
use comp.Base.{
  ℕ, zero, suc, ◌≤◌, sym, subst, List, ◌++◌, Option, none, Bool, true, false, length, length-append,
  length-drop, drop, arith, ok, ◌>>=◌,
}
use comp.SecretCode.Validity.{is_valid_secret_code-defined}
use comp.Messages.{WriteResult, receive_message}
use comp.Server.{
  gp_size, gp_guess_inv, max_guesses_count, Shared, World, goes_on, and_then, send_gp_message,
  receive_guess,
}
use comp.Server.Serving.{
  IsServing, Good, and_then-Good, IsBuffer, Sent, send_gp_message-Good, moved,
}

module _ {S : Type 0} (before : Shared) (read : S → ℕ → Option (List ℕ) × S)
    (write : S → List ℕ → WriteResult × S) where
  module _ (guesses : ℕ) (few : guesses ≤ max_guesses_count) where
    abbrev pub Serving : List ℕ → World S → Type 0
    Serving = Sent before guesses 0

    pub sending :
        (msg_type : List ℕ) (payload : Option (List ℕ)) (w : World S)
        → IsServing before guesses 0 w
        → Good before Serving (send_gp_message read write msg_type payload w)
    sending = send_gp_message-Good before read write guesses 0 few (omega arith)

    pub receive_guess-Good :
        (fuel : ℕ) (buffer : List ℕ) (w : World S)
        → IsBuffer buffer
        → IsServing before guesses 0 w
        → Good before Serving (receive_guess read write fuel buffer w)
    unfolding receive_guess
    receive_guess-Good zero buffer w b h = tt
    receive_guess-Good (suc fuel) buffer w b h =
        let (result, (bytes, s')) = receive_message read gp_size w.socket in
        let now = bytes ++ drop (length bytes) buffer in
        let long : IsBuffer now = omega (
          arith,
          b,
          length-append bytes (drop (length bytes) buffer),
          length-drop (length bytes) buffer,
        ) in
        let (valid, e) = is_valid_secret_code-defined now long in
        subst
          (λ o. Good before Serving (
            o >>= elim [
              | true ↦ ok (goes_on now (record w { socket = s' }))
              | false ↦
                  and_then (send_gp_message read write gp_guess_inv none (record w { socket = s' }))
                    (λ sent_buffer w'. receive_guess read write fuel sent_buffer w')
            ]))
          (sym e)
          (go valid now (record w { socket = s' }) long
            (moved before read write guesses 0 few (omega arith) w s' h)
            (λ a w' g. receive_guess-Good fuel a w' g.0 g.1))
      where
        go :
            (valid : Bool) (now : List ℕ) (w' : World S)
            → IsBuffer now
            → IsServing before guesses 0 w'
            → ((a : List ℕ) (w : World S)
                → Serving a w
                → Good before Serving (receive_guess read write fuel a w))
            → Good before Serving (elim valid [
              | true ↦ ok (goes_on now w')
              | false ↦
                  and_then
                    (send_gp_message read write gp_guess_inv none w')
                    (λ sent_buffer w''. receive_guess read write fuel sent_buffer w'')
            ])
        go true now w' long h ih = (long, h)
        go false now w' long h ih =
            and_then-Good before Serving Serving (send_gp_message read write gp_guess_inv none w')
              (λ sent_buffer w''. receive_guess read write fuel sent_buffer w'')
              (sending gp_guess_inv none w' h) ih
