-- ===== src/Primes/Announcing.antt =====
-- workshop/signal-prime-number.c, main() in the parent process: each number that is entered is tested, and the
-- child process gets a signal for a prime and another one at the end. The calls of the system and what
-- scanf() gives are parameters.
pub mod Told
use comp.Base.{
  ℕ, zero, suc, ◌+◌, List, [], ◌∷◌, ◌++◌, Option, none, some, Bool, true, false, if◌then◌else◌,
  Outcome, ok, ◌>>=◌, deref,
}
use comp.Primes.{isprimeno}

pub data Signal : Type 0 where
  sigusr1 : Signal
  sigusr2 : Signal

-- A number was read; or what is entered is none, and the result is 0; or the input has ended, the result is EOF,
-- which is not 0, and `n` is as it was.
pub data Scanned : Type 0 where
  number : ℕ → Scanned
  no_number : Scanned
  at_end : Scanned

-- The calls of signal(), fork() and kill() succeed or not.
pub record System (K : Type 0) : Type 0 where
  pub signal : Signal → K → Bool × K
  pub fork : K → Bool × K
  pub kill : Signal → K → Bool × K

-- `sent` has the signals that the child was sent, in order.
pub record Parent (K : Type 0) : Type 0 where
  pub kernel : K
  pub n : Option ℕ
  pub sent : List Signal

-- The parent is at its loop, has left it, or returns a status.
pub data Progress (K : Type 0) : Type 0 where
  goes_on : Parent K → Progress K
  leaves : Parent K → Progress K
  returns : ℕ → Parent K → Progress K

-- A call of scanf(), which after the end of the input finds the end again.
pub scanf : List Scanned → Scanned × List Scanned
scanf [] = (at_end, [])
scanf (s ∷ input) = (s, input)

module _ {K : Type 0} (system : System K) where
  pub send : Signal → Parent K → Progress K
  send s p =
      let (succeeds, k) = system.kill s p.kernel in
      if succeeds
      then goes_on (record p { kernel = k; sent = p.sent ++ s ∷ [] })
      else returns 1 (record p { kernel = k })

  -- The test of the number.
  pub announce : ℕ → Parent K → Progress K
  unfolding send
  announce n p = if isprimeno n then send sigusr1 p else goes_on p

  pub after_scanf : Scanned → Parent K → Outcome (Progress K)
  unfolding announce
  after_scanf no_number p = ok (leaves p)
  after_scanf (number m) p = ok (announce m (record p { n = some m }))
  after_scanf at_end p = do n ← deref p.n; ok (announce n p)

  -- The end of main().
  pub finish : Progress K → Progress K
  finish (goes_on p) = returns 0 p
  finish (leaves p) = returns 0 p
  finish (returns status p) = returns status p

  -- The loop, for `fuel` rounds at most.
  pub parent_loop : ℕ → List Scanned → Parent K → Outcome (Progress K)
  unfolding scanf after_scanf finish
  parent_loop zero input p = Outcome.no_fuel
  parent_loop (suc fuel) input p =
      let (s, rest) = scanf input in
      after_scanf s p >>= elim [
        | goes_on p' ↦ parent_loop fuel rest p'
        | leaves p' ↦ ok (finish (send sigusr2 p'))
        | returns status p' ↦ ok (returns status p')
      ]

  -- What follows is done only if the call before it has succeeded.
  pub require : Bool → K → Outcome (Progress K) → Outcome (Progress K)
  require true k rest = rest
  require false k rest = ok (returns 1 (record { kernel = k; n = none; sent = [] }))

  pub main : ℕ → List Scanned → K → Outcome (Progress K)
  unfolding parent_loop require
  main fuel input k =
      let (handles_first, k1) = system.signal sigusr1 k in
      let (handles_second, k2) = system.signal sigusr2 k1 in
      let (forks, k3) = system.fork k2 in
      require handles_first k1 (
        require handles_second k2
          (require forks k3 (parent_loop fuel input (record { kernel = k3; n = none; sent = [] }))))

-- The child process: the lines on primes that it has printed, and whether it has ended.
pub record Child : Type 0 where
  pub printed : ℕ
  pub has_ended : Bool

pub sighandler : Signal → Child → Child
sighandler sigusr1 c = record c { printed = c.printed + 1 }
sighandler sigusr2 c = record c { has_ended = true }

-- The child sleeps between the signals, which it handles one by one.
pub handle_signals : List Signal → Child → Child
unfolding sighandler
handle_signals [] c = c
handle_signals (s ∷ signals) c =
    let rest = handle_signals signals (sighandler s c) in if c.has_ended then c else rest
