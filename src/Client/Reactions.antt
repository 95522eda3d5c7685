-- ===== src/Client/Reactions.antt =====
-- The client of project2/client.c and the messages of project2/server.c.
use comp.Base.{
  ℕ, zero, suc, ◌≡◌, refl, ap, List, [], ◌∷◌, ◌++◌, Option, none, some, false, ◌==◌, Bool-cases,
  inl, inr, ◌⊎◌, no_fuel,
}
use comp.Messages.{WriteResult, receive_message, receive_loop}
use comp.Server.{
  gp_size, gp_disp_msg, gp_guess_req, gp_guess_fbk, gp_guess_inv, gp_game_succ, gp_game_fail,
  gp_serv_full, zeros, compose,
}
use comp.Client.{
  prompt, invalid_guess, you_win, you_lose, server_is_full, shows, asks, ends, c_string, reaction,
  Session, client_round, client_loop,
}

c_string-zeros : (p : List ℕ) (k : ℕ) → c_string (p ++ zeros k) ≡ c_string p
unfolding c_string zeros
c_string-zeros [] zero = refl
c_string-zeros [] (suc k) = refl
c_string-zeros (c ∷ p) k = elim (Bool-cases (c == 0)) [
  | inl e ↦ simp e
  | inr e ↦ simp e (ap (λ l. c ∷ l) (c_string-zeros p k))
]

-- Each message that send_gp_message composes makes the client do what it stands for: the texts are shown
-- as they were sent, up to a null character in them.
pub reaction-compose :
    (payload : List ℕ)
    → (reaction (compose gp_disp_msg (some payload)) ≡ shows (c_string payload))
      × (reaction (compose gp_guess_fbk (some payload)) ≡ shows (c_string payload))
      × (reaction (compose gp_guess_req none) ≡ asks prompt)
      × (reaction (compose gp_guess_inv none) ≡ asks invalid_guess)
      × (reaction (compose gp_game_succ none) ≡ ends you_win)
      × (reaction (compose gp_game_fail none) ≡ ends you_lose)
      × (reaction (compose gp_serv_full none) ≡ ends server_is_full)
unfolding reaction compose
reaction-compose payload = (
  ap shows (c_string-zeros payload _),
  ap shows (c_string-zeros payload _),
  refl,
  refl,
  refl,
  refl,
  refl,
)

module _ {S I : Type 0} (read : S → ℕ → Option (List ℕ) × S) (write : S → List ℕ → WriteResult × S)
    (fgets : I → List ℕ → List ℕ × I)
    (lost : (s : S) (n : ℕ) → (read s n ≡ (none, s)) ⊎ (read s n ≡ (some [], s))) where
  received_none : (left : ℕ) (s : S) → receive_loop read left gp_size s [] ≡ ([], s)
  unfolding receive_loop
  received_none zero s = refl
  received_none (suc left) s = elim (lost s gp_size) [
    | inl e ↦ simp e (received_none left s)
    | inr e ↦ simp e (received_none left s)
  ]

  round_none : (c : Session S I) → client_round read write fgets c ≡ c
  unfolding client_round receive_message reaction zeros
  round_none c = simp (received_none 5 c.socket)

  -- Where every read fails or is at the end of the stream, and leaves the socket as it is, a game that has
  -- not ended never ends: however many rounds the loop is given, they are not enough.
  pub client_loop_lost :
      (fuel : ℕ) (c : Session S I)
      → c.is_end_game ≡ false
      → client_loop read write fgets fuel c ≡ no_fuel
  unfolding client_loop
  client_loop_lost zero c e = refl
  client_loop_lost (suc fuel) c e = simp (round_none c) (simp e (client_loop_lost fuel c e))
