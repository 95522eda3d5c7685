-- ===== src/Client/Play/Rounds.antt =====
-- The reactions of project2/client.c to the messages of a game.
use comp.Base.{
  ℕ, zero, suc, ◌≤◌, ◌<◌, ◌≡◌, ◌∙◌, refl, inl, inr, List, [], ◌∷◌, ◌++◌, Option, none, Bool, true,
  ltb, length, drop, arith, Bool-cases,
}
use comp.Messages.{WriteResult, after_write, send_loop, send_message, receive_message}
use comp.Server.{gp_size}
use comp.Client.{Shown, prompt, invalid_guess, reaction, Session, show, answer, react, client_round}
use comp.Client.Reactions.{reaction-compose}
use comp.Client.Play.{
  Message, display, feedback, guess_request, invalid, LastMessage, success, failure, full, bytes_of,
  last_bytes, shown, last_shown, SendStatus-cases,
}

module _ {S I : Type 0} (coming : S → List ℕ) where
  -- What a session is after a message: what it printed, whether the game is over, and what is to come.
  pub record After (printed : List Shown) (over : Bool) (rest : List ℕ) (c : Session S I)
      : Type 0 where
    pub told : c.printed ≡ printed
    pub over_now : c.is_end_game ≡ over
    pub left : coming c.socket ≡ rest

module _ {S I : Type 0} (read : S → ℕ → Option (List ℕ) × S) (write : S → List ℕ → WriteResult × S)
    (fgets : I → List ℕ → List ℕ × I) (coming : S → List ℕ) where
  -- The session behind some rounds of the loop.
  abbrev pub after_rounds : ℕ → Session S I → Session S I
  after_rounds zero c = c
  after_rounds (suc n) c = after_rounds n (client_round read write fgets c)

  -- In one of the first rounds a call of receive_message gives an error, with a whole message to come.
  pub record Misses (rounds : ℕ) (c : Session S I) : Type 0 where
    pub number : ℕ
    pub early : number < rounds
    pub to_come : gp_size ≤ length (coming (after_rounds number c).socket)
    pub failed : (receive_message read gp_size (after_rounds number c).socket).0 ≡ none

  pub Misses-later :
      (rounds : ℕ) (c : Session S I)
      → Misses rounds (client_round read write fgets c)
      → Misses (suc rounds) c
  Misses-later rounds c h = record {
    number = suc h.number;
    early = omega (arith, h.early);
    to_come = h.to_come;
    failed = h.failed;
  }

module _ {S I : Type 0} (read : S → ℕ → Option (List ℕ) × S) (write : S → List ℕ → WriteResult × S)
    (fgets : I → List ℕ → List ℕ × I) (coming : S → List ℕ)
    (kept : (s : S) (bytes : List ℕ) → coming (write s bytes).1 ≡ coming s) where
  send_loop-coming :
      (left : ℕ) (msg : List ℕ) (n : ℕ) (s : S) → coming (send_loop write left msg n s).1 ≡ coming s
  unfolding send_loop
  send_loop-coming zero msg n s = refl
  send_loop-coming (suc left) msg n s =
      let r = write s (drop n msg) in
      elim (SendStatus-cases (after_write write r.0 n)) [
        | inl (now, e) ↦ elim (Bool-cases (ltb now (length msg))) [
          | inl more ↦
              rw (send_loop, e) (rw more (send_loop-coming left msg now r.1 ∙ kept s (drop n msg)))
          | inr done ↦ rw (send_loop, e) (rw done (kept s (drop n msg)))
        ]
        | inr (inl e) ↦ rw (send_loop, e) (kept s (drop n msg))
        | inr (inr e) ↦ rw (send_loop, e) (kept s (drop n msg))
      ]

  answer-After :
      (buffer : List ℕ) (c : Session S I)
      → After coming c.printed c.is_end_game (coming c.socket) (answer read write fgets buffer c)
  unfolding answer send_message
  answer-After buffer c = record {
    told = refl;
    over_now = refl;
    left = send_loop-coming _ _ 0 c.socket;
  }

  pub react-Message :
      (m : Message) (c : Session S I)
      → After coming
          (c.printed ++ shown m ∷ [])
          c.is_end_game
          (coming c.socket)
          (react read write fgets (bytes_of m) (reaction (bytes_of m)) c)
  unfolding react show
  react-Message (display payload) c =
      let (d, f, q, i, won, lost, refused) = reaction-compose payload in
      rw d (record { told = refl; over_now = refl; left = refl })
  react-Message (feedback payload) c =
      let (d, f, q, i, won, lost, refused) = reaction-compose payload in
      rw f (record { told = refl; over_now = refl; left = refl })
  react-Message guess_request c =
      let (d, f, q, i, won, lost, refused) = reaction-compose [] in
      rw q (answer-After (bytes_of guess_request) (show read write fgets prompt c))
  react-Message invalid c =
      let (d, f, q, i, won, lost, refused) = reaction-compose [] in
      rw i (answer-After (bytes_of invalid) (show read write fgets invalid_guess c))

  pub react-LastMessage :
      (m : LastMessage) (c : Session S I)
      → After coming
          (c.printed ++ last_shown m ∷ [])
          true
          (coming c.socket)
          (react read write fgets (last_bytes m) (reaction (last_bytes m)) c)
  unfolding react show
  react-LastMessage success c =
      let (d, f, q, i, won, lost, refused) = reaction-compose [] in
      rw won (record { told = refl; over_now = refl; left = refl })
  react-LastMessage failure c =
      let (d, f, q, i, won, lost, refused) = reaction-compose [] in
      rw lost (record { told = refl; over_now = refl; left = refl })
  react-LastMessage full c =
      let (d, f, q, i, won, lost, refused) = reaction-compose [] in
      rw refused (record { told = refl; over_now = refl; left = refl })
