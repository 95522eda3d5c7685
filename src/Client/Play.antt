-- ===== src/Client/Play.antt =====
-- A whole game at the client of project2/client.c, as the server of project2/server.c leads it.
pub mod Rounds
pub mod Whole
use mathlib.Core.List.{append_assoc, append-nil}
use comp.Base.{
  ℕ, zero, suc, ◌+◌, ◌-◌, ◌*◌, ◌≤◌, ◌<◌, ◌≡◌, ◌⊎◌, ◌∙◌, refl, sym, ap, inl, inr, List, [], ◌∷◌,
  ◌++◌, Option, none, some, Bool, true, false, ltb, length, length-append, drop, map, All, arith,
  Outcome, ok, if◌then◌else◌, Bool-cases, subst,
}
use comp.Messages.{
  WriteResult, SendStatus, sent, write_conn_lost_error, write_other_error, after_write, send_loop,
  send_message, receive_message,
}
use comp.Messages.Receive.{IsStream, Brings, receive_message_whole}
use comp.Server.{
  gp_size, gp_disp_msg, gp_guess_req, gp_guess_fbk, gp_guess_inv, gp_game_succ, gp_game_fail,
  gp_serv_full, zeros, text_of, compose,
}
use comp.Client.{
  Shown, text, prompt, invalid_guess, you_win, you_lose, server_is_full, Reaction, shows, asks,
  ends, c_string, reaction, Session, show, answer, react, client_round, client_loop,
}
use comp.Client.Reactions.{reaction-compose}

-- The messages before the end of a game, and the one at its end.
pub data Message : Type 0 where
  display : List ℕ → Message
  feedback : List ℕ → Message
  guess_request : Message
  invalid : Message

pub data LastMessage : Type 0 where
  success failure full : LastMessage

-- The bytes that send_gp_message() sends.
abbrev pub bytes_of : Message → List ℕ
bytes_of (display payload) = compose gp_disp_msg (some payload)
bytes_of (feedback payload) = compose gp_guess_fbk (some payload)
bytes_of guess_request = compose gp_guess_req none
bytes_of invalid = compose gp_guess_inv none

abbrev pub last_bytes : LastMessage → List ℕ
last_bytes success = compose gp_game_succ none
last_bytes failure = compose gp_game_fail none
last_bytes full = compose gp_serv_full none

-- The messages, one behind the other.
abbrev pub stream_of : List Message → List ℕ → List ℕ
stream_of [] rest = rest
stream_of (m ∷ ms) rest = bytes_of m ++ stream_of ms rest

abbrev pub shown : Message → Shown
shown (display payload) = text (c_string payload)
shown (feedback payload) = text (c_string payload)
shown guess_request = prompt
shown invalid = invalid_guess

abbrev pub last_shown : LastMessage → Shown
last_shown success = you_win
last_shown failure = you_lose
last_shown full = server_is_full

-- What is printed in a whole game.
abbrev pub transcript : List Message → LastMessage → List Shown
transcript [] m = last_shown m ∷ []
transcript (x ∷ ms) m = shown x ∷ transcript ms m

-- A payload fits in a message behind the seven letters of the type.
abbrev pub Fits : Message → Type 0
Fits (display payload) = length payload ≤ 185
Fits (feedback payload) = length payload ≤ 185
Fits _ = Unit

pub length-zeros : (n : ℕ) → length (zeros n) ≡ n
unfolding zeros
length-zeros zero = refl
length-zeros (suc n) = ap suc (length-zeros n)

padded_length :
    (s : List ℕ) → length s ≤ gp_size → length (s ++ zeros (gp_size - length s)) ≡ gp_size
padded_length s h =
    omega
      (arith, h, length-append s (zeros (gp_size - length s)), length-zeros (gp_size - length s))

pub length-bytes_of : (m : Message) → Fits m → length (bytes_of m) ≡ gp_size
unfolding compose
length-bytes_of (display payload) h = padded_length (gp_disp_msg ++ payload) (omega (arith, h))
length-bytes_of (feedback payload) h = padded_length (gp_guess_fbk ++ payload) (omega (arith, h))
length-bytes_of guess_request h = refl
length-bytes_of invalid h = refl

pub length-last_bytes : (m : LastMessage) → length (last_bytes m) ≡ gp_size
unfolding compose
length-last_bytes success = refl
length-last_bytes failure = refl
length-last_bytes full = refl

pub append-split : (a b s t : List ℕ) → a ++ s ≡ b ++ t → length a ≡ length b → (a ≡ b) × (s ≡ t)
append-split [] [] s t e l = (refl, e)
append-split [] (y ∷ b) s t e l = absurd (omega (arith, l))
append-split (x ∷ a) [] s t e l = absurd (omega (arith, l))
append-split (x ∷ a) (y ∷ b) s t e l =
    let (same, rest) = append-split a b s t (cc) (omega (arith, l)) in (cc, rest)

pub SendStatus-cases :
    (o : SendStatus)
    → ((n : ℕ) × (o ≡ sent n)) ⊎ ((o ≡ write_conn_lost_error) ⊎ (o ≡ write_other_error))
SendStatus-cases (sent n) = inl (n, refl)
SendStatus-cases write_conn_lost_error = inr (inl refl)
SendStatus-cases write_other_error = inr (inr refl)
