-- ===== src/Server/Run.antt =====
-- The counters, the socket and the log over one run of `pthread_routine` of project2/server.c.
use comp.Base.{
  ℕ, ◌≤◌, ◌≡◌, refl, sym, ap, subst, List, [], ◌∷◌, ◌++◌, Option, none, some, Bool, true, false,
  ◌==◌, length, length-append, arith, Outcome, ok, no_fuel, ◌>>=◌,
}
use comp.SecretCode.{secret_code_len, get_random_secret_code}
use comp.SecretCode.Validity.{get_random_secret_code_lem, is_valid_secret_code-defined}
use comp.Messages.{WriteResult}
use comp.Server.{
  gp_disp_msg, gp_game_succ, gp_game_fail, max_guesses_count, client_connected, client_disconnected,
  success_game_over, failure_game_over, server_secret, Shared, World, Thread, goes_on, exits,
  and_then, print_log, close_socket, increment_clients_now_count, increment_clients_count,
  decrement_clients_now_count, increment_clients_win_count, send_gp_message, play, tell_result,
  finish, greet, game_code, pthread_routine,
}
use comp.Server.Serving.{
  hints_append, IsServing, HasLeft, Good, and_then-Good, Sent, send_gp_message-Good,
}
use comp.Server.Session.{sending}
use comp.Server.Routine.{play-Good}

game_code-length :
    (rand : ℕ → ℕ) (given : List ℕ)
    → 5 ≤ length given
    → (code : List ℕ) × (game_code rand given ≡ ok code) × (4 ≤ length code)
unfolding game_code
game_code-length rand given h =
    let (valid, e) = is_valid_secret_code-defined given h in
    let (code, q, l) = go valid in (code, rw e q, l)
  where
    go :
        (valid : Bool)
        → (code : List ℕ) × (elim valid [ true ↦ ok given | false ↦ get_random_secret_code rand ]
            ≡ ok code)
          × (4 ≤ length code)
    go true = (given, refl, omega (arith, h))
    go false =
        let (text, e, l, v) = get_random_secret_code_lem rand in
        (text ++ 0 ∷ [], e, omega (arith, l, length-append text (0 ∷ [])))

module _ {S : Type 0} (before : Shared) (read : S → ℕ → Option (List ℕ) × S)
    (write : S → List ℕ → WriteResult × S) where
  -- The result was told, and there is one win at most.
  abbrev Told : List ℕ → World S → Type 0
  Told buffer w = (wins : ℕ) × (wins ≤ 1) × IsServing before max_guesses_count wins w

  told :
      (wins : ℕ) (msg_type : List ℕ) (w : World S)
      → wins ≤ 1
      → IsServing before max_guesses_count wins w
      → Good before Told (send_gp_message read write msg_type none w)
  told wins msg_type w le h = go (send_gp_message read write msg_type none w) (
      send_gp_message-Good before read write max_guesses_count wins (omega arith) le msg_type none w
        h)
    where
      go :
          (o : Outcome (Thread S (List ℕ)))
          → Good before (Sent before max_guesses_count wins) o
          → Good before Told o
      go (ok (goes_on a w)) g = (wins, le, g.1)
      go (ok (exits w)) g = g
      go Outcome.undefined g = g
      go no_fuel g = g

  module _ (feedback_message : ℕ → ℕ → ℕ → List ℕ) where
    tell_result-Good :
        (won : Bool) (w : World S)
        → IsServing before max_guesses_count 0 w
        → Good before Told (tell_result read write feedback_message won w)
    unfolding tell_result print_log increment_clients_win_count
    tell_result-Good true w h = told 1 gp_game_succ _ (omega arith) (record {
      opened = h.opened;
      entered = h.entered;
      stays = h.stays;
      counted = h.counted;
      won = omega (arith, h.won);
      answered = omega (arith, h.answered, hints_append (w.shared).log success_game_over);
    })
    tell_result-Good false w h = told 0 gp_game_fail _ (omega arith) (record {
      opened = h.opened;
      entered = h.entered;
      stays = h.stays;
      counted = h.counted;
      won = h.won;
      answered = omega (arith, h.answered, hints_append (w.shared).log failure_game_over);
    })

    finish-Good :
        (correct : ℕ) (w : World S)
        → IsServing before max_guesses_count 0 w
        → Good before (λ _ w'. HasLeft before w') (finish read write feedback_message correct w)
    unfolding finish print_log close_socket decrement_clients_now_count
    finish-Good correct w h =
        and_then-Good before Told (λ _ w'. HasLeft before w')
          (tell_result read write feedback_message (correct == secret_code_len) w)
          (λ buffer w'. ok (
            goes_on tt
              (decrement_clients_now_count (print_log client_disconnected (close_socket w')))))
          (tell_result-Good (correct == secret_code_len) w h)
          (λ buffer w' t. record {
            closed = refl;
            entered = t.2.entered;
            left = omega (arith, t.2.stays);
            counted = t.2.counted;
            won_no_less = omega (arith, t.2.won);
            won_once = omega (arith, t.2.won, t.1);
            answered =
                omega (arith, t.2.answered, hints_append (w'.shared).log client_disconnected);
          })

    module _ (welcome_message instructions_1_message instructions_2_message : List ℕ) where
      greet-Good :
          (w : World S)
          → IsServing before 0 0 w
          → Good before (Sent before 0 0) (
              greet read write feedback_message welcome_message instructions_1_message
                instructions_2_message w)
      unfolding greet
      greet-Good w h =
          let send : List ℕ → World S → Outcome (Thread S (List ℕ)) =
            λ text w'. send_gp_message read write gp_disp_msg (some text) w' in
          and_then-Good before (Sent before 0 0) (Sent before 0 0) (send welcome_message w)
            (λ _ w1.
              and_then (send instructions_1_message w1) (λ _ w2. send instructions_2_message w2))
            (sending before read write 0 (omega arith) gp_disp_msg (some welcome_message) w h)
            (λ _ w1 h1.
              and_then-Good before (Sent before 0 0) (Sent before 0 0)
                (send instructions_1_message w1) (λ _ w2. send instructions_2_message w2)
                (sending before read write 0 (omega arith) gp_disp_msg (some instructions_1_message)
                  w1 h1.1)
                (λ _ w2 h2.
                  sending before read write 0 (omega arith) gp_disp_msg
                    (some instructions_2_message) w2 h2.1))

-- What a run of a thread leaves behind.
abbrev pub RunResult : {S : Type 0} → Shared → Outcome (Thread S Unit) → Type 0
RunResult before (ok (goes_on _ w)) = HasLeft before w
RunResult before (ok (exits w)) = HasLeft before w
RunResult before Outcome.undefined = ⊥
RunResult before no_fuel = Unit

module _ {S : Type 0} (read : S → ℕ → Option (List ℕ) × S) (write : S → List ℕ → WriteResult × S)
    (feedback_message : ℕ → ℕ → ℕ → List ℕ)
    (welcome_message instructions_1_message instructions_2_message : List ℕ) where
  entered-IsServing :
      (w : World S) (code : List ℕ)
      → w.is_open ≡ true
      → IsServing w.shared 0 0 (
          print_log
            (server_secret code)
            (increment_clients_count (increment_clients_now_count (print_log client_connected w))))
  unfolding print_log increment_clients_count increment_clients_now_count
  entered-IsServing w code o = record {
    opened = o;
    entered = omega arith;
    stays = refl;
    counted = omega arith;
    won = omega arith;
    answered = omega (
      arith,
      hints_append (w.shared).log client_connected,
      hints_append ((w.shared).log ++ client_connected ∷ []) (server_secret code),
    );
  }

  Good-RunResult :
      (before : Shared) (o : Outcome (Thread S Unit))
      → Good before (λ _ w. HasLeft before w) o
      → RunResult before o
  Good-RunResult before (ok (goes_on a w)) g = g
  Good-RunResult before (ok (exits w)) g = g
  Good-RunResult before Outcome.undefined g = g
  Good-RunResult before no_fuel g = g

  -- Whatever the socket gives and takes and whatever rand() returns, for an open socket and a code
  -- buffer of five characters: no read is undefined, and when the thread ends, after the game or at a
  -- send that fails, it has closed its socket, incremented and decremented the number of clients now
  -- connected once each, counted one client and one win at most, and answered ten guesses at most.
  -- Nothing is said of a run in which there are more invalid guesses in a row than the fuel allows.
  pub pthread_routine_lem :
      (fuel : ℕ) (rand : ℕ → ℕ) (given : List ℕ) (w : World S)
      → w.is_open ≡ true
      → 5 ≤ length given
      → RunResult w.shared (
          pthread_routine read write feedback_message welcome_message instructions_1_message
            instructions_2_message fuel rand given w)
  unfolding pthread_routine
  pthread_routine_lem fuel rand given w o h =
      let (code, e, l) = game_code-length rand given h in
      let entered =
        print_log (server_secret code)
          (increment_clients_count (increment_clients_now_count (print_log client_connected w))) in
      let greeted =
        greet read write feedback_message welcome_message instructions_1_message
          instructions_2_message entered in
      let rest : List ℕ → World S → Outcome (Thread S Unit) = λ _ w1.
        and_then (play read write feedback_message fuel max_guesses_count code 0 0 w1)
          (finish read write feedback_message) in
      subst (RunResult w.shared)
        (ap
          (λ c. c >>= λ secret_code.
            and_then
              (greet read write feedback_message welcome_message instructions_1_message
                instructions_2_message
                (print_log (server_secret secret_code) (
                  increment_clients_count
                    (increment_clients_now_count (print_log client_connected w)))))
              (λ _ w1.
                and_then
                  (play read write feedback_message fuel max_guesses_count secret_code 0 0 w1)
                  (finish read write feedback_message)))
          (sym e))
        (Good-RunResult w.shared (and_then greeted rest) (
          and_then-Good w.shared (Sent w.shared 0 0) (λ _ w'. HasLeft w.shared w') greeted rest
            (greet-Good w.shared read write feedback_message welcome_message instructions_1_message
              instructions_2_message entered (entered-IsServing w code o))
            (λ _ w1 h1.
              and_then-Good w.shared (λ _ w'. IsServing w.shared max_guesses_count 0 w')
                (λ _ w'. HasLeft w.shared w')
                (play read write feedback_message fuel max_guesses_count code 0 0 w1)
                (finish read write feedback_message)
                (play-Good w.shared read write feedback_message fuel max_guesses_count 0 code 0 w1
                  (omega arith) l h1.1)
                (finish-Good w.shared read write feedback_message))))
