-- ===== src/Examples/Protocol.antt =====
-- Instances of the theorems about project2/secret-code.c and project2/message-helpers.c.
use comp.Base.{
  ℕ, zero, suc, ◌+◌, ◌≤◌, ◌≡◌, ◌↔◌, ◌&&◌, refl, ap, List, [], ◌∷◌, ◌++◌, Option, none, some, true,
  leb, ◌==◌, if◌then◌else◌, length, take, drop, arith, ok,
}
use comp.SecretCode.{
  secret_code_colors, SecretCodeGuessFeedback, is_color, is_valid_secret_code,
  get_secret_code_guess_feedback,
}
use comp.SecretCode.Validity.{all_colors, is_valid_secret_code_lem}
use comp.SecretCode.Tally.{tally}
use comp.SecretCode.Feedback.{agreements}
use comp.SecretCode.Guess.{get_secret_code_guess_feedback_lem}
use comp.Messages.{WriteResult, written, receive_message, send_message}
use comp.Messages.Receive.{receive_message_lem}
use comp.Messages.Send.{SendResult, send_message_lem}

abbrev typed_code : List ℕ
typed_code = 65 ∷ 70 ∷ 71 ∷ 66 ∷ []

is_valid_secret_code_lem_example :
    is_valid_secret_code (typed_code ++ 0 ∷ 9 ∷ [])
    ≡ ok (length typed_code == 4 && all_colors typed_code)
is_valid_secret_code_lem_example = is_valid_secret_code_lem typed_code (9 ∷ []) (omega arith)

abbrev actual_code : List ℕ
actual_code = 65 ∷ 65 ∷ 66 ∷ 67 ∷ []

abbrev guessed_code : List ℕ
guessed_code = 65 ∷ 66 ∷ 65 ∷ 65 ∷ []

get_secret_code_guess_feedback_lem_example :
    (f : SecretCodeGuessFeedback) × (get_secret_code_guess_feedback
        (actual_code ++ 0 ∷ [])
        (guessed_code ++ 0 ∷ [])
      ≡ ok f)
    × (f.correct_positions_count ≡ agreements guessed_code actual_code)
    × (f.correct_positions_count + f.correct_colors_count
        ≡ tally secret_code_colors guessed_code actual_code)
    × (f.correct_positions_count + f.correct_colors_count ≤ 4)
    × ((f.is_correct ≡ true) ↔ (guessed_code ≡ actual_code))
unfolding is_color
get_secret_code_guess_feedback_lem_example =
    get_secret_code_guess_feedback_lem actual_code guessed_code (0 ∷ []) (0 ∷ []) refl refl refl

-- A socket that moves two bytes at most with each call.
abbrev chunk : ℕ → ℕ
chunk n = if leb n 2 then n else 2

abbrev read_two : List ℕ → ℕ → Option (List ℕ) × List ℕ
read_two s n = (some (take (chunk n) s), drop (chunk n) s)

abbrev write_two : List ℕ → List ℕ → WriteResult × List ℕ
write_two s bytes = (written (chunk (length bytes)), s ++ take (chunk (length bytes)) bytes)

pub take-append-drop : (n : ℕ) (s : List ℕ) → s ≡ take n s ++ drop n s
take-append-drop zero s = refl
take-append-drop (suc n) [] = refl
take-append-drop (suc n) (x ∷ s) = ap (λ l. x ∷ l) (take-append-drop n s)

pub length-take-le : (n : ℕ) (s : List ℕ) → length (take n s) ≤ n
length-take-le zero s = omega arith
length-take-le (suc n) [] = omega arith
length-take-le (suc n) (x ∷ s) = omega (arith, length-take-le n s)

pub length-take : (n : ℕ) (s : List ℕ) → n ≤ length s → length (take n s) ≡ n
length-take zero s h = refl
length-take (suc n) [] h = omega (arith, h)
length-take (suc n) (x ∷ s) h = omega (arith, length-take n s (omega (arith, h)))

read_two-takes :
    (s : List ℕ) (n : ℕ)
    → (s ≡ take (chunk n) s ++ drop (chunk n) s) × (length (take (chunk n) s) ≤ n)
read_two-takes s n = (take-append-drop (chunk n) s, ground (arith, length-take-le (chunk n) s))

abbrev coming_bytes : List ℕ
coming_bytes = 1 ∷ 2 ∷ 3 ∷ 4 ∷ 5 ∷ 6 ∷ 7 ∷ 8 ∷ []

receive_message_lem_example :
    (buf : List ℕ) × (s' : List ℕ) × (result : Option ℕ) × (receive_message read_two 6 coming_bytes
      ≡ (result, (buf, s')))
    × (coming_bytes ≡ buf ++ s')
    × (length buf ≤ 6)
    × (result ≡ (if length buf == 6 then some 6 else none))
receive_message_lem_example = receive_message_lem read_two (λ s. s) read_two-takes 6 coming_bytes

send_message_lem_example :
    SendResult write_two (λ s. s) [] coming_bytes (send_message write_two coming_bytes [])
send_message_lem_example =
    send_message_lem write_two (λ s. s) (λ s bytes. (refl, ground arith)) [] coming_bytes
