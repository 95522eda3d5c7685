-- ===== src/Messages/Receive.antt =====
-- `receive_message` of project2/message-helpers.c.
use mathlib.Core.List.{append_assoc}
use comp.Base.{
  ℕ, zero, suc, ◌+◌, ◌-◌, ◌≤◌, ◌*◌, ◌⊎◌, ◌≡◌, refl, sym, ap, ◌∙◌, List, [], ◌++◌, Option, none,
  some, ltb, ◌==◌, if◌then◌else◌, length, length-append, arith, Bool-cases, inl, inr,
}
use comp.Messages.{store, receive_loop, receive_message, read_attempts_max_count}

module _ {S : Type 0} (read : S → ℕ → Option (List ℕ) × S) (coming : S → List ℕ) where
  -- What is documented of read(): it takes at most the number of bytes asked for from the front of
  -- what is to come on the stream, or fails and takes none.
  abbrev Took : S → ℕ → Option (List ℕ) × S → Type 0
  Took s n (none, s') = coming s ≡ coming s'
  Took s n (some bytes, s') = (coming s ≡ bytes ++ coming s') × (length bytes ≤ n)

  abbrev pub IsStream : Type 0
  IsStream = (s : S) (n : ℕ) → Took s n (read s n)

  module _ (stream : IsStream) where
    -- The buffer holds `before` and then the bytes that left the stream.
    record Received (msg_size : ℕ) (s : S) (before buf : List ℕ) (s' : S) : Type 0 where
      pub taken : before ++ coming s ≡ buf ++ coming s'
      bounded : length buf ≤ msg_size

    stored :
        (msg_size : ℕ) (s : S) (buf : List ℕ) (r : Option (List ℕ) × S)
        → length buf ≤ msg_size
        → Took s (msg_size - length buf) r
        → Received msg_size s buf (store read r.0 buf) r.1
    unfolding store
    stored msg_size s buf (none, s') b t = record { taken = ap (λ l. buf ++ l) t; bounded = b }
    stored msg_size s buf (some bytes, s') b t = record {
      taken = ap (λ l. buf ++ l) t.0 ∙ sym (append_assoc buf bytes (coming s'));
      bounded = omega (arith, length-append buf bytes, t.1);
    }

    receive_loop-Received :
        (left msg_size : ℕ) (s : S) (buf : List ℕ)
        → length buf ≤ msg_size
        → Received msg_size s buf
            (receive_loop read left msg_size s buf).0
            (receive_loop read left msg_size s buf).1
    unfolding receive_loop
    receive_loop-Received zero msg_size s buf b = record { taken = refl; bounded = b }
    receive_loop-Received (suc left) msg_size s buf b =
        let r = read s (msg_size - length buf) in
        let first = stored msg_size s buf r b (stream s (msg_size - length buf)) in
        let again = receive_loop-Received left msg_size r.1 (store read r.0 buf) first.bounded in
        elim (Bool-cases (ltb (length (store read r.0 buf)) msg_size)) [
          | inl short ↦
              rw short (record { taken = first.taken ∙ again.taken; bounded = again.bounded })
          | inr full ↦ rw full first
        ]

    -- Over a stream: the buffer is filled with what stood next on the stream, in order, no byte is
    -- lost and no more than the size asked for is taken; the call returns this size if the buffer was
    -- filled up to it, and an error if not.
    pub receive_message_lem :
        (msg_size : ℕ) (s : S)
        → (buf : List ℕ) × (s' : S) × (result : Option ℕ) × (receive_message read msg_size s
            ≡ (result, (buf, s')))
          × (coming s ≡ buf ++ coming s')
          × (length buf ≤ msg_size)
          × (result ≡ (if length buf == msg_size then some msg_size else none))
    unfolding receive_message
    receive_message_lem msg_size s =
        let (buf, s') = receive_loop read read_attempts_max_count msg_size s [] in
        let r = receive_loop-Received read_attempts_max_count msg_size s [] (omega arith) in
        (buf, s', _, refl, r.taken, r.bounded, ground arith)

    -- A read brings `k` bytes at least, or all that were asked for.
    abbrev pub Brings : ℕ → ℕ → Option (List ℕ) × S → Type 0
    Brings k n (none, s') = ⊥
    Brings k n (some bytes, s') = (k ≤ length bytes) ⊎ (n ≤ length bytes)

    abbrev repeated : ℕ → ℕ → ℕ
    repeated zero k = 0
    repeated (suc n) k = k + repeated n k

    brought :
        (k msg_size : ℕ) (buf : List ℕ) (r : Option (List ℕ) × S)
        → Brings k (msg_size - length buf) r
        → (length buf + k ≤ length (store read r.0 buf)) ⊎ (msg_size ≤ length (store read r.0 buf))
    unfolding store
    brought k msg_size buf (none, s') b = absurd b
    brought k msg_size buf (some bytes, s') b = ground (arith, b, length-append buf bytes)

    filled :
        (msg_size n : ℕ) → n ≡ msg_size → (if n == msg_size then some n else none) ≡ some msg_size
    filled msg_size n e = ground (arith, e)

    module _ (k : ℕ)
        (brings : (s : S) (n : ℕ) → n ≤ length (coming s) → Brings k n (read s n)) where
      receive_loop-fills :
          (left msg_size : ℕ) (s : S) (buf : List ℕ)
          → length buf ≤ msg_size
          → msg_size ≤ length buf + length (coming s)
          → msg_size ≤ length buf + repeated left k
          → length (receive_loop read left msg_size s buf).0 ≡ msg_size
      unfolding receive_loop
      receive_loop-fills zero msg_size s buf b enough e = omega (arith, b, e)
      receive_loop-fills (suc left) msg_size s buf b enough e =
          let r = read s (msg_size - length buf) in
          let first = stored msg_size s buf r b (stream s (msg_size - length buf)) in
          let more = brought k msg_size buf r (brings s (msg_size - length buf) (omega arith)) in
          elim (Bool-cases (ltb (length (store read r.0 buf)) msg_size)) [
            | inl short ↦ rw short (
                receive_loop-fills left msg_size r.1 (store read r.0 buf) first.bounded
                  (omega (
                    arith,
                    enough,
                    ap length first.taken,
                    length-append buf (coming s),
                    length-append (store read r.0 buf) (coming r.1),
                  ))
                  (ground (arith, more, short, e)))
            | inr full ↦ rw full (ground (arith, full, first.bounded))
          ]

      -- Over a stream with enough bytes to come, where each read that asks for no more than is to come
      -- brings at least a fifth of the message or all that it asked for: the whole message is received.
      pub receive_message_whole :
          (msg_size : ℕ) (s : S)
          → msg_size ≤ 5 * k
          → msg_size ≤ length (coming s)
          → (buf : List ℕ) × (s' : S) × (receive_message read msg_size s
              ≡ (some msg_size, (buf, s')))
            × (coming s ≡ buf ++ coming s')
            × (length buf ≡ msg_size)
      unfolding receive_message
      receive_message_whole msg_size s h enough =
          let (buf, s') = receive_loop read read_attempts_max_count msg_size s [] in
          let r = receive_loop-Received read_attempts_max_count msg_size s [] (omega arith) in
          let e =
            receive_loop-fills read_attempts_max_count msg_size s [] (omega arith)
              (omega (arith, enough)) (omega (arith, h)) in
          (buf, s', ap (λ o. (o, (buf, s'))) (filled msg_size (length buf) e), r.taken, e)
