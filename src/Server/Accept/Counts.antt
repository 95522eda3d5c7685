-- ===== src/Server/Accept/Counts.antt =====
-- The number of clients now connected, while main() of project2/server.c accepts clients.
use comp.Base.{
  ℕ, ◌+◌, ◌≡◌, refl, ap, inl, inr, List, [], ◌∷◌, Option, none, some, Bool, true, false, get_elem?,
  arith, Bool-cases, Option-cases, Outcome, ok,
}
use comp.Messages.{
  WriteResult, SendStatus, sent, write_conn_lost_error, write_other_error, send_message,
}
use comp.Base.{total, total-set, total-append}
use comp.Server.{
  gp_serv_full, server_full, after_send, compose, print_log, close_socket, send_gp_message,
}
use comp.Server.Accept.{
  ClientThread, created, serving, ended, Arrival, malloc_fails, accept_fails, client, Listener,
  world, is_full, after_refusal, refuse, create_thread, accept_client, Event, round, steps,
  thread_step, move, listener_step, listen, listener,
}

abbrev pub has_counted : ClientThread → ℕ
has_counted created = 0
has_counted serving = 1
has_counted ended = 1

abbrev pub has_left : ClientThread → ℕ
has_left ended = 1
has_left _ = 0

abbrev pub is_lost : Bool → ℕ
is_lost true = 0
is_lost false = 1

-- Each thread that serves a client has counted it, and each that has ended has let it go; and where a
-- refusal could not be sent, main() has ended and let go a client that was never counted.
pub record Counted (l : Listener) : Type 0 where
  pub entered : (l.shared).clients_now_increments ≡ total has_counted l.threads
  pub left : (l.shared).clients_now_decrements ≡ total has_left l.threads + is_lost l.is_accepting
  pub counted : (l.shared).clients_count ≡ total has_counted l.threads

pub record Continues (o : Outcome Listener) : Type 0 where
  pub after : Listener
  pub result : o ≡ ok after
  counts : Counted after

module _ {S : Type 0} (read : S → ℕ → Option (List ℕ) × S)
    (write : S → List ℕ → WriteResult × S) where
  refused :
      (l : Listener) (buffer : List ℕ) (status : SendStatus) (s : S)
      → Counted l
      → l.is_accepting ≡ true
      → Continues (
          after_refusal read write l (
            ok (
              after_send read write buffer status
                (record (print_log server_full (world s l.shared)) { socket = s }))))
  unfolding after_refusal after_send print_log close_socket
  refused l buffer (sent n) s c e = record {
    after = _;
    result = refl;
    counts = record { entered = c.entered; left = c.left; counted = c.counted };
  }
  refused l buffer write_conn_lost_error s c e = record {
    after = _;
    result = refl;
    counts = record {
      entered = c.entered;
      left = omega (arith, c.left, ap is_lost e);
      counted = c.counted;
    };
  }
  refused l buffer write_other_error s c e = record {
    after = _;
    result = refl;
    counts = record {
      entered = c.entered;
      left = omega (arith, c.left, ap is_lost e);
      counted = c.counted;
    };
  }

  refuse_lem :
      (s : S) (l : Listener) → Counted l → l.is_accepting ≡ true → Continues (refuse read write s l)
  unfolding refuse send_gp_message
  refuse_lem s l c e =
      let w = print_log server_full (world s l.shared) in
      let buffer = compose gp_serv_full none in
      let (status, s') = send_message write buffer w.socket in refused l buffer status s' c e

  create_thread_lem :
      (s : S) (b : Bool) (l : Listener) → Counted l → Counted (create_thread read write s b l)
  unfolding create_thread print_log close_socket
  create_thread_lem s true l c = record {
    entered = omega (arith, c.entered, total-append has_counted l.threads created);
    left = omega (arith, c.left, total-append has_left l.threads created);
    counted = omega (arith, c.counted, total-append has_counted l.threads created);
  }
  create_thread_lem s false l c = record { entered = c.entered; left = c.left; counted = c.counted }

  accept_client_lem :
      (a : Arrival S) (l : Listener)
      → Counted l
      → l.is_accepting ≡ true
      → Continues (accept_client read write a l)
  unfolding accept_client
  accept_client_lem malloc_fails l c e = record { after = l; result = refl; counts = c }
  accept_client_lem accept_fails l c e = record { after = l; result = refl; counts = c }
  accept_client_lem (client s b) l c e = elim (Bool-cases (is_full l.shared)) [
    | inl full ↦
        let r = refuse_lem s l c e in
        record { after = r.after; result = simp full r.result; counts = r.counts }
    | inr free ↦ record {
      after = create_thread read write s b l;
      result = simp free;
      counts = create_thread_lem s b l c;
    }
  ]

  move_lem :
      (i : ℕ) (t : ClientThread) (l : Listener)
      → get_elem? l.threads i ≡ some t
      → Counted l
      → Counted (move i (some t) l)
  unfolding move thread_step
  move_lem i created l e c = record {
    entered = omega (arith, c.entered, total-set has_counted l.threads i created serving e);
    left = omega (arith, c.left, total-set has_left l.threads i created serving e);
    counted = omega (arith, c.counted, total-set has_counted l.threads i created serving e);
  }
  move_lem i serving l e c = record {
    entered = omega (arith, c.entered, total-set has_counted l.threads i serving ended e);
    left = omega (arith, c.left, total-set has_left l.threads i serving ended e);
    counted = omega (arith, c.counted, total-set has_counted l.threads i serving ended e);
  }
  move_lem i ended l e c = record {
    entered = omega (arith, c.entered, total-set has_counted l.threads i ended ended e);
    left = omega (arith, c.left, total-set has_left l.threads i ended ended e);
    counted = omega (arith, c.counted, total-set has_counted l.threads i ended ended e);
  }

  listener_step_lem :
      (e : Event S) (l : Listener) → Counted l → Continues (listener_step read write e l)
  unfolding listener_step move
  listener_step_lem (round a) l c = elim (Bool-cases l.is_accepting) [
    | inl on ↦
        let r = accept_client_lem a l c on in
        record { after = r.after; result = simp on r.result; counts = r.counts }
    | inr off ↦ record { after = l; result = simp off; counts = c }
  ]
  listener_step_lem (steps i) l c = elim (Option-cases (get_elem? l.threads i)) [
    | inl e ↦ record { after = l; result = simp e; counts = c }
    | inr (t, e) ↦ record {
      after = move i (some t) l;
      result = simp e;
      counts = move_lem i t l e c;
    }
  ]

  listen_lem : (es : List (Event S)) (l : Listener) → Counted l → Continues (listen read write es l)
  unfolding listen
  listen_lem [] l c = record { after = l; result = refl; counts = c }
  listen_lem (e ∷ es) l c =
      let s = listener_step_lem e l c in
      let r = listen_lem es s.after s.counts in
      record { after = r.after; result = simp s.result r.result; counts = r.counts }

  -- Whatever clients come, whatever fails, and in whatever order the threads step: the number of clients
  -- now connected that the server keeps is that of the threads that serve one, less one if main() has
  -- ended because a refusal could not be sent; and each client served is counted once.
  pub listen-Counted : (es : List (Event S)) → Continues (listen read write es listener)
  listen-Counted es =
      listen_lem es listener (record { entered = refl; left = refl; counted = refl })
