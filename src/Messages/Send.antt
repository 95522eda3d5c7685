-- ===== src/Messages/Send.antt =====
-- `send_message` of project2/message-helpers.c.
use mathlib.Core.List.{append_assoc, append-nil}
use comp.Base.{
  ℕ, zero, suc, ◌+◌, ◌≤◌, ◌<◌, ◌≡◌, sym, ap, ◌∙◌, List, ◌++◌, ltb, ◌==◌, if◌then◌else◌, length,
  take, drop, take-add, take-length, length-drop, arith, Bool-cases, inl, inr,
}
use comp.Messages.{
  WriteResult, written, broken_pipe, failed, SendStatus, sent, write_conn_lost_error,
  write_other_error, after_write, send_loop, send_status, send_message, write_attempts_max_count,
}

module _ {S : Type 0} (write : S → List ℕ → WriteResult × S) (put : S → List ℕ) where
  -- What is documented of write(): it puts a number of the first bytes offered at the end of the
  -- stream and gives this number, or fails and puts none.
  abbrev Puts : S → List ℕ → WriteResult × S → Type 0
  Puts s bytes (written n, s') = (put s' ≡ put s ++ take n bytes) × (n ≤ length bytes)
  Puts s bytes (broken_pipe, s') = put s' ≡ put s
  Puts s bytes (failed, s') = put s' ≡ put s

  abbrev pub IsStream : Type 0
  IsStream = (s : S) (bytes : List ℕ) → Puts s bytes (write s bytes)

  -- `n` bytes of the message were put on the stream since `s`.
  abbrev PutPart : S → List ℕ → ℕ → S → Type 0
  PutPart s msg n s' = (put s' ≡ put s ++ take n msg) × (n ≤ length msg)

  abbrev LoopResult : S → List ℕ → SendStatus × S → Type 0
  LoopResult s msg (sent n, s') = PutPart s msg n s'
  LoopResult s msg (write_conn_lost_error, s') = (n : ℕ) × PutPart s msg n s'
  LoopResult s msg (write_other_error, s') = ⊥

  abbrev pub SendResult : S → List ℕ → SendStatus × S → Type 0
  SendResult s msg (sent n, s') = (n ≡ length msg) × (put s' ≡ put s ++ msg)
  SendResult s msg (write_conn_lost_error, s') = (n : ℕ) × PutPart s msg n s'
  SendResult s msg (write_other_error, s') = (n : ℕ) × PutPart s msg n s' × (n < length msg)

  module _ (stream : IsStream) (start : S) (msg : List ℕ) where
    PutPart-written :
        (n k : ℕ) (s s' : S)
        → PutPart start msg n s
        → Puts s (drop n msg) (written k, s')
        → PutPart start msg (n + k) s'
    PutPart-written n k s s' p w = (
      w.0
          ∙ ap (λ l. l ++ take k (drop n msg)) p.0
          ∙ append_assoc (put start) (take n msg) (take k (drop n msg))
          ∙ ap (λ l. put start ++ l) (sym (take-add n k msg)),
      omega (arith, w.1, p.1, length-drop n msg),
    )

    after_write-LoopResult :
        (n : ℕ) (s : S) (r : WriteResult × S)
        → PutPart start msg n s
        → Puts s (drop n msg) r
        → LoopResult start msg (after_write write r.0 n, r.1)
    unfolding after_write
    after_write-LoopResult n s (written k, s') p w = PutPart-written n k s s' p w
    after_write-LoopResult n s (broken_pipe, s') p w = (n, (w ∙ p.0, p.1))
    after_write-LoopResult n s (failed, s') p w = (w ∙ p.0, p.1)

    send_loop-LoopResult :
        (left n : ℕ) (s : S)
        → PutPart start msg n s
        → LoopResult start msg (send_loop write left msg n s)
    unfolding send_loop
    send_loop-LoopResult zero n s p = p
    send_loop-LoopResult (suc left) n s p =
        let (w, s') = write s (drop n msg) in
        go (after_write write w n) s' (after_write-LoopResult n s (w, s') p (stream s (drop n msg)))
          (λ now. send_loop-LoopResult left now s')
      where
        go :
            (o : SendStatus) (s' : S)
            → LoopResult start msg (o, s')
            → ((now : ℕ)
                → PutPart start msg now s'
                → LoopResult start msg (send_loop write left msg now s'))
            → LoopResult start msg (elim o [
              | sent now ↦
                  let again = send_loop write left msg now s' in
                  if ltb now (length msg) then again else (sent now, s')
              | write_conn_lost_error ↦ (write_conn_lost_error, s')
              | write_other_error ↦ (write_other_error, s')
            ])
        go (sent now) s' r ih = elim (Bool-cases (ltb now (length msg))) [
          | inl short ↦ rw short (ih now r)
          | inr full ↦ rw full r
        ]
        go write_conn_lost_error s' r ih = r
        go write_other_error s' r ih = r

    send_status-SendResult :
        (o : SendStatus) (s' : S)
        → LoopResult start msg (o, s')
        → SendResult start msg (send_status write (length msg) o, s')
    unfolding send_status
    send_status-SendResult (sent n) s' r = elim (Bool-cases (n == length msg)) [
      | inl whole ↦
          rw (whole, SendResult)
            (
              ground (arith, whole),
              r.0
                  ∙ ap (λ l. put start ++ l)
                      (ap (λ k. take k msg) (ground (arith, whole)) ∙ take-length msg),
            )
      | inr part ↦ rw (part, SendResult) (n, (r.0, r.1), ground (arith, part, r.1))
    ]
    send_status-SendResult write_conn_lost_error s' r = r
    send_status-SendResult write_other_error s' r = absurd r

    -- Over a stream: a call that returns a size returns that of the message and has put the whole
    -- message on the stream; a lost connection leaves a first part of it there; and any other error
    -- a first part that is shorter than the message.
    pub send_message_lem : SendResult start msg (send_message write msg start)
    unfolding send_message
    send_message_lem =
        let (status, s') = send_loop write write_attempts_max_count msg 0 start in
        send_status-SendResult status s' (
          send_loop-LoopResult write_attempts_max_count 0 start
            (sym (append-nil (put start)), omega arith))
