-- ===== src/Messages/Whole.antt =====
-- `send_message` of project2/message-helpers.c over a stream that takes enough with each write.
use comp.Base.{
  ℕ, zero, suc, ◌+◌, ◌*◌, ◌≤◌, ◌≡◌, ◌⊎◌, ap, List, ltb, if◌then◌else◌, length, drop, length-drop,
  arith, Bool-cases, inl, inr,
}
use comp.Messages.{
  WriteResult, written, broken_pipe, failed, SendStatus, sent, write_conn_lost_error,
  write_other_error, after_write, send_loop, send_status, send_message, write_attempts_max_count,
}

module _ {S : Type 0} (write : S → List ℕ → WriteResult × S) where
  -- A write takes `k` bytes at least, or all that were offered, and no more than these.
  abbrev Takes : ℕ → List ℕ → WriteResult × S → Type 0
  Takes k bytes (written n, s') = (n ≤ length bytes) × ((k ≤ n) ⊎ (length bytes ≤ n))
  Takes k bytes (broken_pipe, s') = ⊥
  Takes k bytes (failed, s') = ⊥

  abbrev repeated : ℕ → ℕ → ℕ
  repeated zero k = 0
  repeated (suc n) k = k + repeated n k

  module _ (k : ℕ) (takes : (s : S) (bytes : List ℕ) → Takes k bytes (write s bytes))
      (msg : List ℕ) where
    after_one :
        (left n : ℕ) (r : WriteResult × S)
        → n ≤ length msg
        → length msg ≤ n + repeated (suc left) k
        → Takes k (drop n msg) r
        → ((now : ℕ) (s' : S)
            → now ≤ length msg
            → length msg ≤ now + repeated left k
            → (send_loop write left msg now s').0 ≡ sent (length msg))
        → (elim (after_write write r.0 n) as (λ _. SendStatus × S) [
          | sent now ↦
              let again = send_loop write left msg now r.1 in
              if ltb now (length msg) then again else (sent now, r.1)
          | write_conn_lost_error ↦ (write_conn_lost_error, r.1)
          | write_other_error ↦ (write_other_error, r.1)
        ]).0
          ≡ sent (length msg)
    unfolding after_write
    after_one left n (written m, s') le e t ih = elim (Bool-cases (ltb (n + m) (length msg))) [
      | inl short ↦
          rw short (
            ih (n + m) s' (ground (arith, short))
              (ground (arith, short, t.1, length-drop n msg, e)))
      | inr full ↦ rw full (ap sent (ground (arith, full, t.0, length-drop n msg, le)))
    ]
    after_one left n (broken_pipe, s') le e t ih = absurd t
    after_one left n (failed, s') le e t ih = absurd t

    send_loop_whole :
        (left n : ℕ) (s : S)
        → n ≤ length msg
        → length msg ≤ n + repeated left k
        → (send_loop write left msg n s).0 ≡ sent (length msg)
    unfolding send_loop
    send_loop_whole zero n s le e = ap sent (omega (arith, le, e))
    send_loop_whole (suc left) n s le e =
        after_one left n (write s (drop n msg)) le e (takes s (drop n msg))
          (λ now s' b c. send_loop_whole left now s' b c)

    -- Where each write takes at least a fifth of the message or all that is offered, and no more than
    -- is offered, the whole message is sent.
    pub send_message_whole :
        (s : S) → length msg ≤ 5 * k → (send_message write msg s).0 ≡ sent (length msg)
    unfolding send_message send_status
    send_message_whole s h =
        let e = send_loop_whole write_attempts_max_count 0 s (omega arith) (omega (arith, h)) in
        rw e (ground arith)
