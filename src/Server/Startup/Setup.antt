-- ===== src/Server/Startup/Setup.antt =====
-- What project2/server.c has set up when it accepts clients.
use comp.Base.{
  ℕ, suc, ◌+◌, ◌≡◌, ◌≢◌, ◌∙◌, refl, sym, ap, subst, List, [], ◌∷◌, ◌++◌, Bool, true, false, ◌==◌,
  ◌&&◌, if◌then◌else◌, All, length, arith, Outcome, ok, Bool-cases, inl, inr, map,
}
use mathlib.Core.List.{append_assoc, append-nil}
use comp.SecretCode.{secret_code_len, is_valid_secret_code, get_random_secret_code}
use comp.SecretCode.Validity.{all_colors, is_valid_secret_code_lem}
use comp.Server.{zeros, game_code}
use comp.Server.Accept.{clients_now_max_count}
use comp.Server.Startup.{
  log_file_mutex, clients_count_mutex, clients_win_count_mutex, Call, open_log_file, handle_sigint,
  handle_sigterm, ignore_sigpipe, attr_init, attr_setdetachstate, mutex_init, create_socket,
  bind_port, listen_for, Setting, Progress, goes_on, exits_at, Start, started, unspecified_port,
  failed_at, strncpy, secret_code_of, after_call, attempt, next, set_signals, init_threads,
  open_socket, as_start, main,
}

-- The calls of a start that succeeds.
abbrev pub setup_calls : ℕ → List Call
setup_calls port =
    open_log_file
    ∷ handle_sigint
    ∷ handle_sigterm
    ∷ ignore_sigpipe
    ∷ attr_init
    ∷ attr_setdetachstate
    ∷ mutex_init log_file_mutex
    ∷ mutex_init clients_count_mutex
    ∷ mutex_init clients_win_count_mutex
    ∷ create_socket
    ∷ bind_port port
    ∷ listen_for clients_now_max_count
    ∷ []

module _ {K : Type 0} (system : Call → K → Bool × K) where
  -- Each of the calls succeeds, one after the other, and they bring the system from one state to another.
  abbrev pub Succeed : List Call → K → K → Type 0
  Succeed [] k k' = k ≡ k'
  Succeed (c ∷ calls) k k' = ((system c k).0 ≡ true) × Succeed calls (system c k).1 k'

  Succeed-append :
      (calls : List Call) (c : Call) (k k' : K)
      → Succeed calls k k'
      → (system c k').0 ≡ true
      → Succeed (calls ++ c ∷ []) k (system c k').1
  Succeed-append [] c k k' e b = (ap (λ k. (system c k).0) e ∙ b, ap (λ k. (system c k).1) e)
  Succeed-append (d ∷ calls) c k k' e b = (e.0, Succeed-append calls c (system d k).1 k' e.1 b)

  -- A call has failed that is one of these, those before it have succeeded, and none was made behind it.
  pub record FailedAt (calls : List Call) (k : K) (c : Call) (s : Setting K) : Type 0 where
    pub before : List Call
    pub after : List Call
    pub place : calls ≡ before ++ c ∷ after
    pub made : s.made ≡ before ++ c ∷ []
    pub kernel : K
    pub succeeded : Succeed before k kernel
    pub failed : (system c kernel).0 ≡ false
    pub left : s.kernel ≡ (system c kernel).1

  abbrev pub Follows : List Call → K → List Call → Progress K → Type 0
  Follows calls k left (goes_on s) = (s.made ++ left ≡ calls) × Succeed s.made k s.kernel
  Follows calls k left (exits_at c s) = FailedAt calls k c s

  after_call-Follows :
      (calls left made : List Call) (c : Call) (k k' : K) (succeeds : Bool)
      → made ++ c ∷ left ≡ calls
      → Succeed made k k'
      → (system c k').0 ≡ succeeds
      → Follows calls k left (
          after_call system c (record { kernel = (system c k').1; made = made ++ c ∷ [] }) succeeds)
  unfolding after_call
  after_call-Follows calls left made c k k' true e m b =
      (append_assoc made (c ∷ []) left ∙ e, Succeed-append made c k k' m b)
  after_call-Follows calls left made c k k' false e m b = record {
    before = made;
    after = left;
    place = sym e;
    made = refl;
    kernel = k';
    succeeded = m;
    failed = b;
    left = refl;
  }

  next-Follows :
      (calls : List Call) (k : K) (left : List Call) (c : Call) (p : Progress K)
      → Follows calls k (c ∷ left) p
      → Follows calls k left (next system c p)
  unfolding next attempt
  next-Follows calls k left c (goes_on s) h =
      after_call-Follows calls left s.made c k s.kernel (system c s.kernel).0 h.0 h.1 refl
  next-Follows calls k left c (exits_at d s) h = h

  all_calls-Follows :
      (port : ℕ) (k : K)
      → Follows (setup_calls port) k [] (
          open_socket system port (
            init_threads system (
              set_signals system
                (next system open_log_file (goes_on (record { kernel = k; made = [] }))))))
  unfolding set_signals init_threads open_socket
  all_calls-Follows port k =
      let follows = next-Follows (setup_calls port) k in
      follows [] _ _ (
        follows _ _ _ (
          follows _ _ _ (
            follows _ _ _ (
              follows _ _ _ (
                follows _ _ _ (
                  follows _ _ _ (
                    follows _ _ _ (
                      follows _ _ _ (
                        follows _ _ _ (
                          follows _ _ _ (
                            follows _ open_log_file (goes_on (record { kernel = k; made = [] }))
                              (refl, refl))))))))))))

abbrev pub terminated : List ℕ → List ℕ
terminated text = text ++ 0 ∷ []

-- The code that is asked for, if it is one, and else a random code.
abbrev pub wanted_code : (ℕ → ℕ) → List (List ℕ) → Outcome (List ℕ)
wanted_code rand [] = get_random_secret_code rand
wanted_code rand (text ∷ _) =
    if length text == secret_code_len && all_colors text
    then ok (terminated text)
    else get_random_secret_code rand

strncpy_lem :
    (text : List ℕ)
    → All (λ c. c ≢ 0) text
    → strncpy (suc (length text)) (terminated text) ≡ ok (terminated text)
unfolding strncpy zeros
strncpy_lem [] h = refl
strncpy_lem (c ∷ text) h =
    let other : (c == 0) ≡ false = ground (arith, h.0) in simp (other, strncpy_lem text h.1)

valid_code :
    (rand : ℕ → ℕ) (code : List ℕ)
    → is_valid_secret_code code ≡ ok true
    → game_code rand code ≡ ok code
unfolding game_code
valid_code rand code e = simp e

no_code :
    (rand : ℕ → ℕ) → game_code rand (zeros (secret_code_len + 1)) ≡ get_random_secret_code rand
unfolding game_code zeros is_valid_secret_code
no_code rand = refl

secret_code_of_lem :
    (rand : ℕ → ℕ) (texts : List (List ℕ))
    → All (All (λ c. c ≢ 0)) texts
    → (secret_code : List ℕ) × (secret_code_of (map terminated texts) ≡ ok secret_code)
      × (game_code rand secret_code ≡ wanted_code rand texts)
unfolding secret_code_of
secret_code_of_lem rand [] h = (zeros (secret_code_len + 1), refl, no_code rand)
secret_code_of_lem rand (text ∷ texts) h =
    let valid = is_valid_secret_code_lem text [] h.0 in
    elim (Bool-cases (length text == secret_code_len && all_colors text)) [
      | inl e ↦
          let four : suc (length text) ≡ secret_code_len + 1 = ground (arith, e) in
          let copied : strncpy (secret_code_len + 1) (terminated text) ≡ ok (terminated text) =
            ap (λ n. strncpy n (terminated text)) (sym four) ∙ strncpy_lem text h.0 in
          (
            terminated text,
            simp (valid, e, copied),
            rw e (valid_code rand (terminated text) (valid ∙ ap ok e)),
          )
      | inr e ↦ (zeros (secret_code_len + 1), simp (valid, e), rw e (no_code rand))
    ]

module _ {K : Type 0} (system : Call → K → Bool × K) where
  -- The program is at the loop after all of these calls have succeeded, and its games have this code; or one
  -- of them has failed.
  abbrev pub Starts : List Call → K → (ℕ → ℕ) → Outcome (List ℕ) → Start K → Type 0
  Starts calls k rand code (started secret_code s) =
      (s.made ≡ calls) × Succeed system calls k s.kernel × (game_code rand secret_code ≡ code)
  Starts calls k rand code (failed_at c s) = FailedAt system calls k c s
  Starts calls k rand code unspecified_port = ⊥

  as_start-Starts :
      (calls : List Call) (k : K) (rand : ℕ → ℕ) (code : Outcome (List ℕ)) (secret_code : List ℕ)
      (p : Progress K)
      → Follows system calls k [] p
      → game_code rand secret_code ≡ code
      → Starts calls k rand code (as_start system secret_code p)
  unfolding as_start
  as_start-Starts calls k rand code secret_code (goes_on s) f e =
      let all : s.made ≡ calls = sym (append-nil s.made) ∙ f.0 in
      (all, subst (λ l. Succeed system l k s.kernel) all f.1, e)
  as_start-Starts calls k rand code secret_code (exits_at c s) f e = f

  -- With a port among the arguments, main() makes its calls of the system in their order, each in the state
  -- that the one before has left. At the first one that fails it ends, with none made behind it; it
  -- starts to accept clients only when all have succeeded, and then each game has the code of the
  -- second argument if this is four colours, and a random code otherwise.
  pub main-Starts :
      (atoi : List ℕ → ℕ) (rand : ℕ → ℕ) (port : List ℕ) (texts : List (List ℕ)) (k : K)
      → All (All (λ c. c ≢ 0)) texts
      → (r : Start K) × (main system atoi (port ∷ map terminated texts) k ≡ ok r)
        × Starts (setup_calls (atoi port)) k rand (wanted_code rand texts) r
  unfolding main
  main-Starts atoi rand port texts k h =
      let (secret_code, e, code) = secret_code_of_lem rand texts h in
      let f = all_calls-Follows system (atoi port) k in
      (
        _,
        simp e,
        as_start-Starts (setup_calls (atoi port)) k rand (wanted_code rand texts) secret_code _ f
            code,
      )
