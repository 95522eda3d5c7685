-- ===== src/Client/Startup.antt =====
-- main() of project2/client.c: the arguments, the connection and the game. The functions of the
-- network are parameters.
pub mod Ending
use comp.Base.{ℕ, List, [], ◌∷◌, Option, none, some, Bool, true, false, Outcome, ok, ◌>>=◌}
use comp.Messages.{WriteResult}
use comp.Client.{Session, client_loop}

-- What the client says when it ends by exit(1).
pub data ExitReason : Type 0 where
  unspecified_hostname_or_port no_such_host socket_fails connect_fails : ExitReason

pub data Result (S I : Type 0) : Type 0 where
  finished : Session S I → Result S I
  exits_by : ExitReason → S → Result S I

-- `gethostbyname host s` gives the address of a host, `socket s` a file descriptor, and
-- `connect fd address port s` whether it succeeds. `atoi` is followed by htons().
pub record Network (S : Type 0) : Type 0 where
  pub gethostbyname : List ℕ → S → Option (List ℕ) × S
  pub port_of : List ℕ → ℕ
  pub socket : S → Option ℕ × S
  pub connect : ℕ → List ℕ → ℕ → S → Bool × S
  pub read : ℕ → S → ℕ → Option (List ℕ) × S
  pub write : ℕ → S → List ℕ → WriteResult × S
  pub close : ℕ → S → S

module _ {S I : Type 0} (network : Network S) (fgets : I → List ℕ → List ℕ × I) (stdin : I)
    (fuel : ℕ) where
  pub communicate : ℕ → S → Outcome (Result S I)
  communicate socket_fd s = do
    c ←
        client_loop (network.read socket_fd) (network.write socket_fd) fgets fuel
          (record { socket = s; input = stdin; printed = []; is_end_game = false })
    ok (finished (record c { socket = network.close socket_fd c.socket }))

  pub after_connect : ℕ → Bool × S → Outcome (Result S I)
  unfolding communicate
  after_connect socket_fd (true, s) = communicate socket_fd s
  after_connect socket_fd (false, s) = ok (exits_by connect_fails s)

  pub after_socket : List ℕ → List ℕ → Option ℕ × S → Outcome (Result S I)
  after_socket address port (none, s) = ok (exits_by socket_fails s)
  after_socket address port (some socket_fd, s) =
      after_connect socket_fd (network.connect socket_fd address (network.port_of port) s)

  pub after_lookup : List ℕ → Option (List ℕ) × S → Outcome (Result S I)
  after_lookup port (none, s) = ok (exits_by no_such_host s)
  after_lookup port (some address, s) = after_socket address port (network.socket s)

  -- The arguments behind the name of the program.
  pub main : List (List ℕ) → S → Outcome (Result S I)
  main [] s = ok (exits_by unspecified_hostname_or_port s)
  main (host ∷ []) s = ok (exits_by unspecified_hostname_or_port s)
  main (host ∷ port ∷ _) s = after_lookup port (network.gethostbyname host s)
