-- ===== src/Client/Startup/Ending.antt =====
-- How main() of project2/client.c ends.
use comp.Base.{
  ℕ, suc, ◌+◌, ◌<◌, ◌≡◌, ◌⊎◌, List, [], ◌∷◌, ◌++◌, Option, none, some, Bool, true, false, length,
  All, Outcome, ok,
}
use comp.Messages.Receive.{IsStream}
use comp.Client.{Session}
use comp.Client.Play.{Message, LastMessage, last_bytes, stream_of, transcript, Fits}
use comp.Client.Play.Rounds.{Misses}
use comp.Client.Startup.{
  unspecified_hostname_or_port, no_such_host, socket_fails, connect_fails, Result, finished,
  exits_by, Network,
}

module _ {S : Type 0} (network : Network S) (coming : ℕ → S → List ℕ) where
  -- What is documented of a connected socket: read() takes no more than it was asked for, from the front of
  -- what is to come, or fails and takes nothing; and write() goes the other way, and leaves what is to come as
  -- it is.
  pub record IsDuplex : Type 0 where
    pub stream : (fd : ℕ) → IsStream (network.read fd) (coming fd)
    pub kept :
        (fd : ℕ) (s : S) (bytes : List ℕ) → coming fd (network.write fd s bytes).1 ≡ coming fd s

module _ {S : Type 0} (network : Network S) (argv : List (List ℕ)) (start : S) where
  -- The answer of the lookup of the first argument, when there are two.
  pub record LookedUp (answer : Option (List ℕ)) (port : List ℕ) (s : S) : Type 0 where
    pub host : List ℕ
    pub others : List (List ℕ)
    pub arguments : argv ≡ host ∷ port ∷ others
    pub found : network.gethostbyname host start ≡ (answer, s)

  -- What socket() has given behind a lookup that has found an address.
  pub record Opened (answer : Option ℕ) (address port : List ℕ) (s : S) : Type 0 where
    pub before : S
    pub looked_up : LookedUp (some address) port before
    pub opened : network.socket before ≡ (answer, s)

  -- Whether connect() has succeeded behind a socket that was created, to the address that was found.
  pub record Connected (succeeds : Bool) (fd : ℕ) (s : S) : Type 0 where
    pub address : List ℕ
    pub port : List ℕ
    pub before : S
    pub is_open : Opened (some fd) address port before
    pub connected : network.connect fd address (network.port_of port) before ≡ (succeeds, s)

module _ {S I : Type 0} (network : Network S) (coming : ℕ → S → List ℕ) (argv : List (List ℕ))
    (start : S) where
  -- How the program may end: it has printed all of a game over its connection and closed the socket; or it
  -- has ended at the first call that has failed.
  abbrev pub Ends : List Message → LastMessage → List ℕ → Result S I → Type 0
  Ends ms m rest (finished c) =
      (c.printed ≡ transcript ms m)
      × ((fd : ℕ) × (s s' : S) × Connected network argv start true fd s
          × (c.socket ≡ network.close fd s')
          × (coming fd s' ≡ rest))
  Ends ms m rest (exits_by unspecified_hostname_or_port s) = (length argv < 2) × (s ≡ start)
  Ends ms m rest (exits_by no_such_host s) =
      (port : List ℕ) × LookedUp network argv start none port s
  Ends ms m rest (exits_by socket_fails s) =
      (address port : List ℕ) × Opened network argv start none address port s
  Ends ms m rest (exits_by connect_fails s) = (fd : ℕ) × Connected network argv start false fd s

module _ {S I : Type 0} (network : Network S) (coming : ℕ → S → List ℕ)
    (fgets : I → List ℕ → List ℕ × I) (stdin : I) (argv : List (List ℕ)) (start : S) where
  -- The game at its beginning, behind the connection.
  abbrev pub beginning : S → Session S I
  beginning s = record { socket = s; input = stdin; printed = []; is_end_game = false }

  -- A call of receive_message gives an error in one of the first rounds of the game, with a whole message to
  -- come.
  abbrev pub IsMissed : ℕ → Type 0
  IsMissed rounds =
      (fd : ℕ) × (s : S) × Connected network argv start true fd s
      × Misses (network.read fd) (network.write fd) fgets (coming fd) rounds (beginning s)

module _ {S I : Type 0} (network : Network S) (coming : ℕ → S → List ℕ)
    (fgets : I → List ℕ → List ℕ × I) (stdin : I) (duplex : IsDuplex network coming)
    (argv : List (List ℕ)) (start : S) (ms : List Message) (m : LastMessage) (rest : List ℕ)
    (fits : All Fits ms)
    (comes : (fd : ℕ) (s : S)
      → Connected network argv start true fd s
      → coming fd s ≡ stream_of ms (last_bytes m ++ rest))
    (fuel : ℕ) (rounds : length ms + 1 < fuel) where
  abbrev MainEnds : Outcome (Result S I) → Type 0
  MainEnds o =
      ((r : Result S I) × (o ≡ ok r) × Ends network coming argv start ms m rest r)
      ⊎ IsMissed network coming fgets stdin argv start (suc (length ms))
