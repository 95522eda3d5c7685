-- ===== src/Server/Startup.antt =====
-- project2/server.c, main() before the loop that accepts clients. A call of the system succeeds or not.
pub mod Setup
use comp.Base.{
  ℕ, zero, suc, ◌+◌, List, [], ◌∷◌, ◌++◌, Bool, true, false, ◌==◌, if◌then◌else◌, Outcome, ok,
  ◌>>=◌,
}
use comp.SecretCode.{secret_code_len, is_valid_secret_code}
use comp.Server.{zeros}
use comp.Server.Accept.{clients_now_max_count}

pub data Mutex : Type 0 where
  log_file_mutex clients_now_count_mutex clients_count_mutex clients_win_count_mutex : Mutex

-- The calls that main() checks.
pub data Call : Type 0 where
  open_log_file : Call
  handle_sigint handle_sigterm ignore_sigpipe : Call
  attr_init attr_setdetachstate : Call
  mutex_init : Mutex → Call
  create_socket : Call
  bind_port : ℕ → Call
  listen_for : ℕ → Call

-- `made` has the calls so far, in order.
pub record Setting (K : Type 0) : Type 0 where
  pub kernel : K
  pub made : List Call

-- main() goes on, or has printed the name of a call and ended by exit(1).
pub data Progress (K : Type 0) : Type 0 where
  goes_on : Setting K → Progress K
  exits_at : Call → Setting K → Progress K

-- main() is at the loop, with the secret code, and with the counters and the log as `listener` says; or the port is missing; or a call has failed.
pub data Start (K : Type 0) : Type 0 where
  started : List ℕ → Setting K → Start K
  unspecified_port : Start K
  failed_at : Call → Setting K → Start K

-- strncpy() of `n` characters, the rest of which are null.
pub strncpy : ℕ → List ℕ → Outcome (List ℕ)
strncpy zero src = ok []
strncpy (suc n) [] = Outcome.undefined
strncpy (suc n) (c ∷ src) =
    let rest = strncpy n src in
    if c == 0 then ok (zeros (suc n)) else (do copied ← rest; ok (c ∷ copied))

-- The secret code of the arguments behind the port; null characters stand for none.
pub secret_code_of : List (List ℕ) → Outcome (List ℕ)
unfolding strncpy
secret_code_of [] = ok (zeros (secret_code_len + 1))
secret_code_of (argument ∷ _) = is_valid_secret_code argument >>= elim [
  | true ↦ strncpy (secret_code_len + 1) argument
  | false ↦ ok (zeros (secret_code_len + 1))
]

module _ {K : Type 0} (system : Call → K → Bool × K) where
  pub after_call : Call → Setting K → Bool → Progress K
  after_call c s true = goes_on s
  after_call c s false = exits_at c s

  pub attempt : Call → Setting K → Progress K
  unfolding after_call
  attempt c s =
      let (succeeds, k) = system c s.kernel in
      after_call c (record { kernel = k; made = s.made ++ c ∷ [] }) succeeds

  -- A call, if main() goes on.
  pub next : Call → Progress K → Progress K
  unfolding attempt
  next c (goes_on s) = attempt c s
  next c (exits_at d s) = exits_at d s

  pub set_signals : Progress K → Progress K
  set_signals p = next ignore_sigpipe (next handle_sigterm (next handle_sigint p))

  pub init_threads : Progress K → Progress K
  init_threads p = next (mutex_init clients_win_count_mutex) (
      next (mutex_init clients_count_mutex)
        (next (mutex_init log_file_mutex) (next attr_setdetachstate (next attr_init p))))

  pub open_socket : ℕ → Progress K → Progress K
  open_socket port p =
      next (listen_for clients_now_max_count) (next (bind_port port) (next create_socket p))

  pub as_start : List ℕ → Progress K → Start K
  as_start secret_code (goes_on s) = started secret_code s
  as_start secret_code (exits_at c s) = failed_at c s

  pub main : (List ℕ → ℕ) → List (List ℕ) → K → Outcome (Start K)
  unfolding set_signals init_threads open_socket as_start
  main atoi [] k = ok unspecified_port
  main atoi (port ∷ rest) k = do
    secret_code ← secret_code_of rest
    ok (
        as_start secret_code (
          open_socket (atoi port) (
            init_threads
              (set_signals (next open_log_file (goes_on (record { kernel = k; made = [] })))))))
