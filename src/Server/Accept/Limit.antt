-- ===== src/Server/Accept/Limit.antt =====
-- The limit of clients in main() of project2/server.c, which is tested before the threads count.
use comp.Base.{ℕ, zero, suc, ◌≡◌, sym, ap, ◌∙◌, List, [], ◌∷◌, ◌++◌, Option, true, ok}
use mathlib.Core.List.{append_assoc, append-nil}
use comp.Messages.{WriteResult}
use comp.Server.Accept.{
  ClientThread, created, client, Listener, accept_client, create_thread, round, listener_step,
  listen, listener,
}

abbrev pub times {ℓ} : {A : Type ℓ} → ℕ → A → List A
times zero a = []
times (suc n) a = a ∷ times n a

module _ {S : Type 0} (read : S → ℕ → Option (List ℕ) × S) (write : S → List ℕ → WriteResult × S)
    (s : S) where
  with_threads : List ClientThread → Listener
  with_threads ts = record listener { threads = ts }

  accepts_more :
      (n : ℕ) (ts : List ClientThread)
      → listen read write (times n (round (client s true))) (with_threads ts)
        ≡ ok (with_threads (ts ++ times n created))
  unfolding listen listener_step accept_client create_thread with_threads
  accepts_more zero ts = ap (λ l. ok (with_threads l)) (sym (append-nil ts))
  accepts_more (suc n) ts =
      accepts_more n (ts ++ created ∷ [])
      ∙ ap (λ l. ok (with_threads l)) (append_assoc ts (created ∷ []) (times n created))

  -- However many clients come before the first of their threads runs, each is accepted and gets a
  -- thread, also when there are more of them than the limit.
  pub listen-times :
      (n : ℕ)
      → listen read write (times n (round (client s true))) listener
        ≡ ok (record listener { threads = times n created })
  unfolding with_threads
  listen-times n = accepts_more n []
