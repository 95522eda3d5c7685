-- ===== src/Client.antt =====
-- project2/client.c: the loop of main() that reacts to the messages of the server. read(), write() and
-- fgets() are parameters.
pub mod Reactions
pub mod Play
pub mod Startup
use comp.Base.{
  ℕ, zero, suc, List, [], ◌∷◌, ◌++◌, Option, none, some, Bool, true, false, ◌||◌, ◌==◌,
  if◌then◌else◌, length, drop, Outcome, ok, no_fuel,
}
use comp.Messages.{WriteResult, SendStatus, send_message, receive_message}
use comp.Server.{
  gp_size, gp_disp_msg, gp_guess_req, gp_guess_fbk, gp_guess_inv, gp_game_succ, gp_game_fail,
  gp_serv_full, zeros,
}

abbrev pub gp_header_size : ℕ
gp_header_size = 7

-- What the client prints.
pub data Shown : Type 0 where
  text : List ℕ → Shown
  prompt : Shown
  invalid_guess : Shown
  you_win : Shown
  you_lose : Shown
  server_is_full : Shown

-- What a message makes it do: show a text, ask for a guess, end the game, or nothing.
pub data Reaction : Type 0 where
  shows : List ℕ → Reaction
  asks : Shown → Reaction
  ends : Shown → Reaction
  ignores : Reaction

-- strncmp(...) == 0; both are as long as the test goes.
strncmp_equal : ℕ → List ℕ → List ℕ → Bool
strncmp_equal zero a b = true
strncmp_equal (suc n) (x ∷ a) (y ∷ b) =
    let rest = strncmp_equal n a b in if x == y then (if x == 0 then true else rest) else false
strncmp_equal (suc n) _ _ = false

-- The characters before the first null character.
unfoldable pub c_string : List ℕ → List ℕ
c_string [] = []
c_string (c ∷ s) = let rest = c_string s in if c == 0 then [] else c ∷ rest

has_type : List ℕ → List ℕ → Bool
unfolding strncmp_equal
has_type buffer msg_type = strncmp_equal gp_header_size buffer msg_type

unfoldable pub reaction : List ℕ → Reaction
unfolding has_type c_string
reaction buffer =
    if has_type buffer gp_disp_msg
    then shows (c_string (drop gp_header_size buffer))
    else if has_type buffer gp_guess_req
    then asks prompt
    else if has_type buffer gp_guess_inv
    then asks invalid_guess
    else if has_type buffer gp_guess_fbk
    then shows (c_string (drop gp_header_size buffer))
    else if has_type buffer gp_game_succ
    then ends you_win
    else if has_type buffer gp_game_fail
    then ends you_lose
    else if has_type buffer gp_serv_full
    then ends server_is_full
    else ignores

-- buffer[strcspn(buffer, "\r\n")] = 0.
cut_line : List ℕ → List ℕ
cut_line [] = []
cut_line (c ∷ s) =
    let rest = cut_line s in
    if c == 0 then c ∷ s else if (c == 13) || (c == 10) then 0 ∷ s else c ∷ rest

pub record Session (S I : Type 0) : Type 0 where
  pub socket : S
  pub input : I
  pub printed : List Shown
  pub is_end_game : Bool

module _ {S I : Type 0} (read : S → ℕ → Option (List ℕ) × S) (write : S → List ℕ → WriteResult × S)
    (fgets : I → List ℕ → List ℕ × I) where
  pub show : Shown → Session S I → Session S I
  show line c = record c { printed = c.printed ++ line ∷ [] }

  -- A line of the input is sent.
  pub answer : List ℕ → Session S I → Session S I
  unfolding cut_line
  answer buffer c =
      let (typed, input) = fgets c.input buffer in
      let (status, socket) = send_message write (cut_line typed) c.socket in
      record c { socket = socket; input = input }

  pub react : List ℕ → Reaction → Session S I → Session S I
  unfolding show answer
  react buffer (shows s) c = show (text s) c
  react buffer (asks line) c = answer buffer (show line c)
  react buffer (ends line) c = record (show line c) { is_end_game = true }
  react buffer ignores c = c

  -- A round of the loop; the buffer is cleared before each.
  pub client_round : Session S I → Session S I
  unfolding react
  client_round c =
      let (result, (bytes, socket)) = receive_message read gp_size c.socket in
      let buffer = bytes ++ drop (length bytes) (zeros gp_size) in
      react buffer (reaction buffer) (record c { socket = socket })

  pub client_loop : ℕ → Session S I → Outcome (Session S I)
  unfolding client_round
  client_loop zero c = no_fuel
  client_loop (suc fuel) c =
      let rest = client_loop fuel (client_round c) in if c.is_end_game then ok c else rest
