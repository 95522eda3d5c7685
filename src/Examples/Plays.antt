-- ===== src/Examples/Plays.antt =====
-- A game at the client of project2/client.c, and an instance of the theorem about it.
use comp.Base.{ℕ, zero, suc, List, [], ◌∷◌, ◌++◌, Option, some, true, length, take, drop}
use comp.Messages.{WriteResult, written}
use comp.Client.Play.{Message, display, guess_request, invalid, success, last_bytes, stream_of}
use comp.Client.Startup.{Network}

-- A socket that gives all that is asked for and takes all that is written.
abbrev read_full : List ℕ → ℕ → Option (List ℕ) × List ℕ
read_full s n = (some (take n s), drop n s)

abbrev write_full : List ℕ → List ℕ → WriteResult × List ℕ
write_full s bytes = (written (length bytes), s)

abbrev to_come : List ℕ → List ℕ
to_come s = s

-- The player types CAB, and then ABCD.
abbrev typed : ℕ → List ℕ → List ℕ × ℕ
typed zero buffer = (67 ∷ 65 ∷ 66 ∷ 10 ∷ 0 ∷ [], 1)
typed (suc i) buffer = (65 ∷ 66 ∷ 67 ∷ 68 ∷ 10 ∷ 0 ∷ [], 2)

-- A greeting, a guess that is not valid, and one that is right.
abbrev won_game : List Message
won_game = display (72 ∷ 105 ∷ []) ∷ guess_request ∷ invalid ∷ []

-- A server that plays this game with each client that connects.
abbrev game_server : Network (List ℕ)
game_server = record {
  gethostbyname = λ host s. (some (127 ∷ 0 ∷ 0 ∷ 1 ∷ []), s);
  port_of = length;
  socket = λ s. (some 3, s);
  connect = λ fd address port s. (true, stream_of won_game (last_bytes success ++ []));
  read = λ fd. read_full;
  write = λ fd. write_full;
  close = λ fd s. s;
}

abbrev words : List (List ℕ)
words = (104 ∷ []) ∷ (56 ∷ 48 ∷ []) ∷ []
