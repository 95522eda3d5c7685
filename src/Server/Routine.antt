-- ===== src/Server/Routine.antt =====
-- The loop over the guesses in `pthread_routine` of project2/server.c.
use comp.Base.{
  ℕ, zero, suc, ◌+◌, ◌≤◌, ◌<◌, List, [], ◌∷◌, ◌++◌, Option, none, some, Bool, true, false, ltb,
  length, arith, Outcome, ok,
}
use comp.SecretCode.{secret_code_len}
use comp.SecretCode.Guess.{get_secret_code_guess_feedback-defined}
use comp.Messages.{WriteResult}
use comp.Server.{
  gp_guess_req, gp_guess_fbk, max_guesses_count, server_hint, client_guess, Shared, World, Thread,
  goes_on, and_then, print_log, send_gp_message, receive_guess, answer_guess, play,
}
use comp.Server.Serving.{hints_append, IsServing, Good, and_then-Good, IsBuffer}
use comp.Server.Session.{Serving, sending, receive_guess-Good}

module _ {S : Type 0} (before : Shared) where
  more_guesses :
      (g g' wins : ℕ) (w : World S)
      → g ≤ g'
      → IsServing before g wins w
      → IsServing before g' wins w
  more_guesses g g' wins w le h = record {
    opened = h.opened;
    entered = h.entered;
    stays = h.stays;
    counted = h.counted;
    won = h.won;
    answered = omega (arith, h.answered);
  }

  module _ (read : S → ℕ → Option (List ℕ) × S) (write : S → List ℕ → WriteResult × S)
      (feedback_message : ℕ → ℕ → ℕ → List ℕ) where
    answered_one :
        (g p c : ℕ) (guess : List ℕ) (w : World S)
        → IsServing before g 0 w
        → IsServing before
            (suc g)
            0
            (print_log (server_hint p c) (print_log (client_guess guess) w))
    unfolding print_log
    answered_one g p c guess w h = record {
      opened = h.opened;
      entered = h.entered;
      stays = h.stays;
      counted = h.counted;
      won = h.won;
      answered = omega (
        arith,
        h.answered,
        hints_append (w.shared).log (client_guess guess),
        hints_append ((w.shared).log ++ client_guess guess ∷ []) (server_hint p c),
      );
    }

    answer_guess-Good :
        (g : ℕ) (secret_code guess : List ℕ) (w : World S)
        → g < max_guesses_count
        → 4 ≤ length secret_code
        → IsBuffer guess
        → IsServing before g 0 w
        → Good before
            (λ now w'. IsServing before (suc g) 0 w')
            (answer_guess read write feedback_message secret_code g guess w)
    unfolding answer_guess
    answer_guess-Good g secret_code guess w few b bg h =
        let (f, e) =
          get_secret_code_guess_feedback-defined secret_code guess b (omega (arith, bg)) in
        let le : suc g ≤ max_guesses_count = omega (arith, few) in
        let p = f.correct_positions_count in
        let logged =
          print_log (server_hint p f.correct_colors_count) (print_log (client_guess guess) w) in
        let text = some (feedback_message (g + 1) p f.correct_colors_count) in
        rw e (
          and_then-Good before (Serving before read write (suc g) le)
            (λ now w'. IsServing before (suc g) 0 w')
            (send_gp_message read write gp_guess_fbk text logged) (λ buffer w'. ok (goes_on p w'))
            (sending before read write (suc g) le gp_guess_fbk text logged
              (answered_one g p f.correct_colors_count guess w h))
            (λ a w' s. s.1))

    pub play-Good :
        (fuel left g : ℕ) (secret_code : List ℕ) (correct : ℕ) (w : World S)
        → g + left ≤ max_guesses_count
        → 4 ≤ length secret_code
        → IsServing before g 0 w
        → Good before
            (λ now w'. IsServing before max_guesses_count 0 w')
            (play read write feedback_message fuel left secret_code g correct w)
    unfolding play
    play-Good fuel zero g secret_code correct w few b h =
        more_guesses g max_guesses_count 0 w (omega (arith, few)) h
    play-Good fuel (suc left) g secret_code correct w few b h =
        go (ltb correct secret_code_len)
          (λ now w'. play-Good fuel left (g + 1) secret_code now w' (omega (arith, few)) b)
      where
        go :
            (again : Bool)
            → ((now : ℕ) (w' : World S)
                → IsServing before (g + 1) 0 w'
                → Good before
                    (λ now w'. IsServing before max_guesses_count 0 w')
                    (play read write feedback_message fuel left secret_code (g + 1) now w'))
            → Good before
                (λ now w'. IsServing before max_guesses_count 0 w')
                (elim again [
                  | false ↦ ok (goes_on correct w)
                  | true ↦ and_then (send_gp_message read write gp_guess_req none w) (λ buffer w1.
                      and_then (receive_guess read write fuel buffer w1) (λ guess w2.
                        and_then
                          (answer_guess read write feedback_message secret_code g guess w2)
                          (λ now w3.
                            play read write feedback_message fuel left secret_code (g + 1) now w3)))
                ])
        go false ih = more_guesses g max_guesses_count 0 w (omega (arith, few)) h
        go true ih =
            let le : g ≤ max_guesses_count = omega (arith, few) in
            let next : ℕ → World S → Outcome (Thread S ℕ) =
              λ now w3. play read write feedback_message fuel left secret_code (g + 1) now w3 in
            let answer : List ℕ → World S → Outcome (Thread S ℕ) = λ guess w2.
              and_then (answer_guess read write feedback_message secret_code g guess w2) next in
            and_then-Good before (Serving before read write g le)
              (λ now w'. IsServing before max_guesses_count 0 w')
              (send_gp_message read write gp_guess_req none w)
              (λ buffer w1. and_then (receive_guess read write fuel buffer w1) answer)
              (sending before read write g le gp_guess_req none w h)
              (λ buffer w1 h1.
                and_then-Good before (Serving before read write g le)
                  (λ now w'. IsServing before max_guesses_count 0 w')
                  (receive_guess read write fuel buffer w1) answer
                  (receive_guess-Good before read write g le fuel buffer w1 h1.0 h1.1)
                  (λ guess w2 h2.
                    and_then-Good before (λ now w'. IsServing before (suc g) 0 w')
                      (λ now w'. IsServing before max_guesses_count 0 w')
                      (answer_guess read write feedback_message secret_code g guess w2) next
                      (answer_guess-Good g secret_code guess w2 (omega (arith, few)) b h2.0 h2.1)
                      (λ now w3 h3.
                        ih now w3 (more_guesses (suc g) (g + 1) 0 w3 (omega arith) h3))))
