-- ===== src/Client/Play/Whole.antt =====
-- The loop of main() of project2/client.c over the messages of a whole game.
use mathlib.Core.List.{append_assoc, append-nil}
use comp.Base.{
  ℕ, zero, suc, ◌+◌, ◌≤◌, ◌<◌, ◌≡◌, ◌⊎◌, ◌∙◌, ◌==◌, refl, sym, ap, subst, inl, inr, List, [], ◌∷◌,
  ◌++◌, Option, some, none, true, false, length, length-append, drop, All, arith, ok, if◌then◌else◌,
  Bool-cases,
}
use comp.Messages.{WriteResult, receive_message}
use comp.Messages.Receive.{IsStream, receive_message_lem}
use comp.Server.{gp_size, zeros}
use comp.Client.{reaction, Session, react, client_round, client_loop}
use comp.Client.Play.{
  Message, LastMessage, bytes_of, last_bytes, stream_of, shown, transcript, Fits, length-bytes_of,
  length-last_bytes, length-zeros, append-split,
}
use comp.Client.Play.Rounds.{After, Misses, Misses-later, react-Message, react-LastMessage}

drop-long : (n : ℕ) (s : List ℕ) → length s ≤ n → drop n s ≡ []
drop-long zero [] h = refl
drop-long zero (x ∷ s) h = absurd (omega (arith, h))
drop-long (suc n) [] h = refl
drop-long (suc n) (x ∷ s) h = drop-long n s (omega (arith, h))

cleared : (buf : List ℕ) → length buf ≡ gp_size → buf ++ drop (length buf) (zeros gp_size) ≡ buf
cleared buf e =
    rw (drop-long (length buf) (zeros gp_size) (omega (arith, e, length-zeros gp_size)))
      (append-nil buf)

module _ {S I : Type 0} (read : S → ℕ → Option (List ℕ) × S) (write : S → List ℕ → WriteResult × S)
    (fgets : I → List ℕ → List ℕ × I) (coming : S → List ℕ)
    (kept : (s : S) (bytes : List ℕ) → coming (write s bytes).1 ≡ coming s) where
  module _ (stream : IsStream read coming) where
    -- A round takes the next message whole and reacts to it, or its call of receive_message gives an error.
    client_round-message :
        (bytes rest : List ℕ) (c : Session S I)
        → length bytes ≡ gp_size
        → coming c.socket ≡ bytes ++ rest
        → ((s : S) × (client_round read write fgets c
              ≡ react read write fgets bytes (reaction bytes) (record c { socket = s }))
            × (coming s ≡ rest))
          ⊎ ((gp_size ≤ length (coming c.socket))
              × ((receive_message read gp_size c.socket).0 ≡ none))
    unfolding client_round
    client_round-message bytes rest c l e =
        let (buf, s, result, r, split, bounded, size) =
          receive_message_lem read coming stream gp_size c.socket in
        elim (Bool-cases (length buf == gp_size)) [
          | inl all_here ↦
              let whole : length buf ≡ gp_size = ground (arith, all_here) in
              let (same, left) =
                append-split bytes buf rest (coming s) (sym e ∙ split) (l ∙ sym whole) in
              let taking = λ (x : Option ℕ × (List ℕ × S)).
                let buffer = x.1.0 ++ drop (length x.1.0) (zeros gp_size) in
                react read write fgets buffer (reaction buffer) (record c { socket = x.1.1 }) in
              let reacting =
                λ (b : List ℕ). react read write fgets b (reaction b) (record c { socket = s }) in
              inl (s, ap taking r ∙ ap reacting (cleared buf whole ∙ sym same), sym left)
          | inr short ↦ inr (
            omega (arith, l, ap length e, length-append bytes rest),
            ap (λ x. x.0) r ∙ size ∙ ap (λ b. if b then some gp_size else none) short,
          )
        ]

    client_loop-ended :
        (fuel : ℕ) (c : Session S I)
        → c.is_end_game ≡ true
        → 0 < fuel
        → client_loop read write fgets fuel c ≡ ok c
    unfolding client_loop
    client_loop-ended zero c e h = absurd (omega (arith, h))
    client_loop-ended (suc fuel) c e h = simp e

    client_loop-goes :
        (fuel : ℕ) (c c' : Session S I)
        → c.is_end_game ≡ false
        → client_round read write fgets c ≡ c'
        → client_loop read write fgets (suc fuel) c ≡ client_loop read write fgets fuel c'
    unfolding client_loop
    client_loop-goes fuel c c' e r =
        ap
          (λ b.
            if b then ok c else client_loop read write fgets fuel (client_round read write fgets c))
          e
        ∙ ap (client_loop read write fgets fuel) r

    -- What the loop gives: a game that was shown whole, or a message that was not received.
    abbrev pub Plays : List Message → LastMessage → List ℕ → ℕ → Session S I → Type 0
    Plays ms m rest fuel c =
        ((c' : Session S I) × (client_loop read write fgets fuel c ≡ ok c')
          × After coming (c.printed ++ transcript ms m) true rest c')
        ⊎ Misses read write fgets coming (suc (length ms)) c

    last-Plays :
        (m : LastMessage) (rest : List ℕ) (fuel : ℕ) (c : Session S I) (s : S)
        → 0 < fuel
        → c.is_end_game ≡ false
        → client_round read write fgets c
          ≡ react read write fgets
              (last_bytes m)
              (reaction (last_bytes m))
              (record c { socket = s })
        → coming s ≡ rest
        → Plays [] m rest (suc fuel) c
    last-Plays m rest fuel c s h e r left =
        let now = record c { socket = s } in
        let a = react-LastMessage read write fgets coming kept m now in
        let c' = react read write fgets (last_bytes m) (reaction (last_bytes m)) now in
        inl (
          c',
          client_loop-goes fuel c c' e r ∙ client_loop-ended fuel c' a.over_now h,
          record { told = a.told; over_now = a.over_now; left = a.left ∙ left },
        )

    more-Plays :
        (x : Message) (ms : List Message) (m : LastMessage) (rest : List ℕ) (fuel : ℕ)
        (c c' : Session S I)
        → c.is_end_game ≡ false
        → client_round read write fgets c ≡ c'
        → c'.printed ≡ c.printed ++ shown x ∷ []
        → Plays ms m rest fuel c'
        → Plays (x ∷ ms) m rest (suc fuel) c
    more-Plays x ms m rest fuel c c' e r told (inl (c'', ran, b)) = inl (
      c'',
      client_loop-goes fuel c c' e r ∙ ran,
      record {
        told =
            b.told
            ∙ ap (λ l. l ++ transcript ms m) told
            ∙ append_assoc c.printed (shown x ∷ []) (transcript ms m);
        over_now = b.over_now;
        left = b.left;
      },
    )
    more-Plays x ms m rest fuel c c' e r told (inr missed) = inr (
        Misses-later read write fgets coming (suc (length ms)) c
          (subst (Misses read write fgets coming (suc (length ms))) (sym r) missed))

    missed_now :
        (rounds : ℕ) (c : Session S I)
        → 0 < rounds
        → (gp_size ≤ length (coming c.socket)) × ((receive_message read gp_size c.socket).0 ≡ none)
        → Misses read write fgets coming rounds c
    missed_now rounds c h (whole, failed) = record {
      number = 0;
      early = h;
      to_come = whole;
      failed = failed;
    }

    -- Over a socket whose reads take from the stream, and whose writes leave what is to come as it is: where
    -- the messages of a game are to come, each with a payload that fits, and then the message at its end,
    -- the loop of a client whose game has not ended comes to its end, if it is given a round for each message
    -- and the test of the loop behind the last. It has then shown each message in order, the last is the end
    -- of the game, and the bytes behind it are still to come. Or else a call of receive_message on the way has
    -- given an error, with a whole message to come.
    pub client_loop-game :
        (ms : List Message) (m : LastMessage) (rest : List ℕ) (fuel : ℕ) (c : Session S I)
        → All Fits ms
        → length ms + 1 < fuel
        → c.is_end_game ≡ false
        → coming c.socket ≡ stream_of ms (last_bytes m ++ rest)
        → Plays ms m rest fuel c
    client_loop-game ms m rest zero c f h e t = absurd (omega (arith, h))
    client_loop-game [] m rest (suc fuel) c f h e t =
        elim (client_round-message (last_bytes m) rest c (length-last_bytes m) t) [
          | inl (s, r, left) ↦ last-Plays m rest fuel c s (omega (arith, h)) e r left
          | inr missed ↦ inr (missed_now 1 c (omega arith) missed)
        ]
    client_loop-game (x ∷ ms) m rest (suc fuel) c f h e t =
        elim (client_round-message (bytes_of x) (stream_of ms (last_bytes m ++ rest)) c
          (length-bytes_of x f.0) t) [
            | inl (s, r, left) ↦
                let now = record c { socket = s } in
                let a = react-Message read write fgets coming kept x now in
                let c' = react read write fgets (bytes_of x) (reaction (bytes_of x)) now in
                more-Plays x ms m rest fuel c c' e r a.told (
                  client_loop-game ms m rest fuel c' f.1 (omega (arith, h)) (a.over_now ∙ e)
                    (a.left ∙ left))
            | inr missed ↦ inr (missed_now (suc (suc (length ms))) c (omega arith) missed)
          ]
