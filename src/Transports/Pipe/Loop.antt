-- ===== src/Transports/Pipe/Loop.antt =====
-- include/minimosq/transports/posix/pipe.hpp: what a pass of the event loop keeps, over anything that the
-- transport may drive.
use minimosq_mqtt.Prelude.{
  ℕ, ◌≡◌, refl, sym, ap, subst, ◌∙◌, inl, inr, true, false, not, ◌&&◌, ◌||◌, [], ◌∷◌, Bool-cases,
  Option-cases, Bytes, if_keeps,
}
use minimosq_mqtt.Core.Span.{is_ok}
use minimosq_mqtt.Transports.Kernel.{
  Kernel, Answer, Answer-cases, done, failed, Revents, posix_now_ms, is_interrupted, is_again,
}
use minimosq_mqtt.Transports.Kernel.Flush.{IsKernel}
use minimosq_mqtt.Transports.Rounds.{outcome, rounds_keep}
use minimosq_mqtt.Transports.Client.{Client, on_transport, IsClient}
use minimosq_mqtt.Transports.Pipe.{Pipe, is_open, flush, flush_pass, close_fds, send, close}
use minimosq_mqtt.Transports.Pipe.Streams.{IsSound}
use minimosq_mqtt.Transports.Pipe.Calls.{
  flush-IsSound, send-IsSound, close-IsSound, close_fds-IsSound, kept-IsSound, flush_pass-IsSound,
}
use minimosq_mqtt.Transports.Pipe.Pass.{
  max_reads_per_pass, entries, read_events, write_events, hang_up, got, read_round,
  read_into_broker, start, finish, serve, poll_open, poll_once,
}

module _ {K W : Type 0} (sys : Kernel K) (laws : IsKernel sys) (c : ℕ) (client : Client (Pipe K) W)
    (contract : IsClient (send sys c) (close sys c) client) where
  abbrev pub Holds : W → Type 0
  Holds w = IsSound c (client.get w)

  put-Holds : (p : Pipe K) (w : W) → IsSound c p → Holds (client.put p w)
  put-Holds p w h = subst (IsSound c) (sym (contract.get-put p w)) h

  -- The system moves on.
  moved-Holds :
      (k : K) (w : W) → Holds w → Holds (on_transport client (λ p. record p { kernel = k }) w)
  moved-Holds k w h =
      put-Holds _ w (kept-IsSound sys laws c (client.get w) _ refl refl refl (λ o. refl) refl h)

  abbrev called :
      (w : W)
      → Holds w
      → ((ci now : ℕ) → Holds (client.conn_open ci now w).1)
        × ((ci : ℕ) (bytes : Bytes) (now : ℕ) → Holds (client.conn_data ci bytes now w).1)
        × ((ci : ℕ) → Holds (client.conn_closed ci w))
        × ((now : ℕ) → Holds (client.tick now w))
  called w h =
      contract.keeps (IsSound c) (λ p ci bytes v. send-IsSound sys laws c p ci bytes v)
        (λ p ci v. close-IsSound sys laws c p ci v) w h

  hang_up-Holds : (w : W) → Holds w → Holds (hang_up sys c client w)
  unfolding hang_up
  hang_up-Holds w h =
      let p = close_fds sys (flush sys c (client.get w)) in
      let shut = close_fds-IsSound sys laws c _ (flush-IsSound sys laws c (client.get w) h) in
      (called (client.put p w) (put-Holds p w shut)).2 0

  got-Holds :
      (now : ℕ) (a : Answer Bytes) (w : W) → Holds w → Holds (outcome (got sys c client now a w))
  unfolding got
  got-Holds now (done []) w h = hang_up-Holds w h
  got-Holds now (done (b ∷ bytes)) w h = (called w h).1 0 (b ∷ bytes) now
  got-Holds now (failed e) w h = elim (Bool-cases (is_again e)) [
    | inl x ↦ rw (x, got) h
    | inr x ↦ elim (Bool-cases (is_interrupted e)) [
      | inl y ↦ rw (x, y, got) h
      | inr y ↦ rw (x, y, got) (hang_up-Holds w h)
    ]
  ]

  read_round-Holds : (now : ℕ) (w : W) → Holds w → Holds (outcome (read_round sys c client now w))
  unfolding read_round
  read_round-Holds now w h = elim (Option-cases (client.get w).rfd) [
    | inl o ↦ rw (o, read_round) h
    | inr (fd, o) ↦
        let answer = sys.read (client.get w).kernel fd 2048 in
        rw (o, read_round) (got-Holds now answer.0 _ (moved-Holds answer.1 w h))
  ]

  start-Holds : (now : ℕ) (w : W) → Holds w → Holds (start sys c client now w)
  unfolding start
  start-Holds now w h =
      let w1 = on_transport client (λ p. record p { started = true }) w in
      let h1 =
        put-Holds _ w
          (kept-IsSound sys laws c (client.get w) _ refl refl refl (λ o. refl) refl h) in
      let opened = (called w1 h1).0 0 now in
      let w2 = (client.conn_open 0 now w1).1 in
      if_keeps Holds (not (client.get w).started && is_open (client.get w).rfd)
        (if_keeps Holds (is_ok (client.conn_open 0 now w1).0) opened
          (put-Holds _ w2 (close_fds-IsSound sys laws c (client.get w2) opened)))
        h

  serve-Holds : (now : ℕ) (r s : Revents) (w : W) → Holds w → Holds (serve sys c client now r s w)
  unfolding serve read_into_broker
  serve-Holds now r s w h =
      let h1 =
        if_keeps Holds s.writable (put-Holds _ w (flush-IsSound sys laws c (client.get w) h)) h in
      if_keeps Holds (r.readable || r.hung_up || r.error)
        (rounds_keep Holds max_reads_per_pass _ _ (read_round-Holds now) h1) h1

  -- What a pass ends with.
  abbrev pub IsWritten : W → Type 0
  IsWritten w = Holds w × ((client.get w).dirty ≡ false)

  finish-IsWritten : (now : ℕ) (w : W) → Holds w → IsWritten (finish sys c client now w)
  unfolding finish
  finish-IsWritten now w h =
      let w1 = client.tick now w in
      let p = client.get w1 in
      let (v, clean) = flush_pass-IsSound sys laws c p ((called w h).3 now) in
      (put-Holds _ w1 v, ap (λ x. x.dirty) (contract.get-put (flush_pass sys c p) w1) ∙ clean)

  poll_open-IsWritten :
      (timeout_ms rfd : ℕ) (w : W) → Holds w → IsWritten (poll_open sys c client timeout_ms rfd w).1
  unfolding poll_open
  poll_open-IsWritten timeout_ms rfd w h =
      let es = entries rfd (client.get w) in
      let answer = sys.poll (client.get w).kernel es timeout_ms in
      let clock = posix_now_ms sys answer.1 in
      let h1 = moved-Holds clock.1 w h in
      elim (Answer-cases answer.0) [
        | inl ((rc, rs), d) ↦
            rw (d, poll_open)
              (finish-IsWritten clock.0 _
                (serve-Holds clock.0 (read_events rs) (write_events es rs) _ h1))
        | inr (e, d) ↦ rw (d, poll_open) (finish-IsWritten clock.0 _ h1)
      ]

  -- A pass over the pipe, with a broker that keeps the contract and whatever the system answers
  -- to each call, where a write takes no more than it is given, an interrupted write uses up a
  -- signal and a write brings none, keeps that the bytes queued since `open` are those written and
  -- those in the ring, in order, and that each descriptor was taken as often as it was closed or
  -- is held.
  pub poll_once-IsSound :
      (timeout_ms : ℕ) (w : W)
      → IsSound c (client.get w)
      → IsSound c (client.get (poll_once sys c client timeout_ms w).1)
  unfolding poll_once
  poll_once-IsSound timeout_ms w h =
      let clock = posix_now_ms sys (client.get w).kernel in
      let w1 =
        start sys c client clock.0 (on_transport client (λ p. record p { kernel = clock.1 }) w) in
      let h1 = start-Holds clock.0 _ (moved-Holds clock.1 w h) in
      elim (Option-cases (client.get w1).rfd) [
        | inl o ↦ rw (o, poll_once) ((called w1 h1).3 clock.0)
        | inr (fd, o) ↦ rw (o, poll_once) (poll_open-IsWritten timeout_ms fd w1 h1).0
      ]
