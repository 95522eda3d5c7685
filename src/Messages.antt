-- ===== src/Messages.antt =====
-- project2/message-helpers.c and .h: sending and receiving a whole message over a socket. read() and
-- write() are parameters: they take the state of the socket and what the call asks for.
pub mod Receive
pub mod Send
pub mod Whole
use comp.Base.{
  ℕ, zero, suc, ◌+◌, ◌-◌, List, [], ◌∷◌, ◌++◌, Option, none, some, Bool, true, false, ltb, ◌==◌,
  if◌then◌else◌, length, drop,
}

abbrev pub read_attempts_max_count : ℕ
read_attempts_max_count = 5

abbrev pub write_attempts_max_count : ℕ
write_attempts_max_count = 5

-- What a call of write() gives: the number of bytes, -1 with errno EPIPE, or another -1.
pub data WriteResult : Type 0 where
  written : ℕ → WriteResult
  broken_pipe failed : WriteResult

-- What `send_message` returns.
pub data SendStatus : Type 0 where
  sent : ℕ → SendStatus
  write_conn_lost_error write_other_error : SendStatus

module _ {S : Type 0} where
  -- `read s n` asks for `n` bytes; `none` stands for -1.
  module _ (read : S → ℕ → Option (List ℕ) × S) where
    store : Option (List ℕ) → List ℕ → List ℕ
    store none buf = buf
    store (some bytes) buf = buf ++ bytes

    -- The loop, with `left` attempts left. `buf` is the part of the buffer that was filled.
    unfoldable pub receive_loop : ℕ → ℕ → S → List ℕ → List ℕ × S
    unfolding store
    receive_loop zero msg_size s buf = (buf, s)
    receive_loop (suc left) msg_size s buf =
        let (n, s') = read s (msg_size - length buf) in
        let again = receive_loop left msg_size s' (store n buf) in
        if ltb (length (store n buf)) msg_size then again else (store n buf, s')

    -- The size received, where `none` is READ_ERROR, and what the buffer was filled with.
    unfoldable pub receive_message : ℕ → S → Option ℕ × (List ℕ × S)
    receive_message msg_size s =
        let (buf, s') = receive_loop read_attempts_max_count msg_size s [] in
        (if length buf == msg_size then some (length buf) else none, (buf, s'))

  -- `write s bytes` offers bytes.
  module _ (write : S → List ℕ → WriteResult × S) where
    pub after_write : WriteResult → ℕ → SendStatus
    after_write (written n) sent_msg_size = sent (sent_msg_size + n)
    after_write broken_pipe sent_msg_size = write_conn_lost_error
    after_write failed sent_msg_size = sent sent_msg_size

    -- The loop, with `left` attempts left; the message has the size `length msg`.
    unfoldable pub send_loop : ℕ → List ℕ → ℕ → S → SendStatus × S
    unfolding after_write
    send_loop zero msg sent_msg_size s = (sent sent_msg_size, s)
    send_loop (suc left) msg sent_msg_size s =
        let (n, s') = write s (drop sent_msg_size msg) in
        elim (after_write n sent_msg_size) [
          | sent now ↦
              let again = send_loop left msg now s' in
              if ltb now (length msg) then again else (sent now, s')
          | write_conn_lost_error ↦ (write_conn_lost_error, s')
          | write_other_error ↦ (write_other_error, s')
        ]

    -- After the loop.
    send_status : ℕ → SendStatus → SendStatus
    send_status msg_size (sent n) = if n == msg_size then sent n else write_other_error
    send_status msg_size write_conn_lost_error = write_conn_lost_error
    send_status msg_size write_other_error = write_other_error

    unfoldable pub send_message : List ℕ → S → SendStatus × S
    unfolding send_status
    send_message msg s =
        let (status, s') = send_loop write_attempts_max_count msg 0 s in
        (send_status (length msg) status, s')
