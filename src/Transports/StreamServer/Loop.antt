-- ===== src/Transports/StreamServer/Loop.antt =====
-- include/minimosq/transports/posix/stream_server.hpp: what a pass of the event loop keeps, over anything
-- that the transport may drive.
use minimosq_mqtt.Prelude.{
  if_keeps, ℕ, ◌≡◌, refl, sym, ap, subst, ◌∙◌, inl, inr, false, ◌||◌, Option, none, some, List, [],
  ◌∷◌, ◌==◌, if◌then◌else◌, Bool-cases, Option-cases, Bytes, length, get_elem?, map,
}
use minimosq_mqtt.Core.Span.{is_ok}
use minimosq_mqtt.Transports.Kernel.{
  Kernel, Answer, Answer-cases, done, failed, PollFd, Revents, posix_now_ms, is_interrupted,
  is_again,
}
use minimosq_mqtt.Transports.Kernel.Flush.{IsKernel}
use minimosq_mqtt.Transports.Rounds.{outcome, rounds_keep}
use minimosq_mqtt.Transports.Client.{Client, on_transport, IsClient}
use minimosq_mqtt.Transports.StreamServer.{
  Slot, StreamServer, native_handle, flush, release_slot, flush_all, send, close,
}
use minimosq_mqtt.Transports.StreamServer.Ledger.{IsSound}
use minimosq_mqtt.Transports.StreamServer.Streams.{flush-IsSound, kept-IsSound}
use minimosq_mqtt.Transports.StreamServer.Calls.{
  send-IsSound, close-IsSound, hang_up-IsSound, native_handle_at,
}
use minimosq_mqtt.Transports.StreamServer.Writing.{flush_all-IsSound, flush_all-clean}
use minimosq_mqtt.Transports.StreamServer.Accept.{IsTaken, accept_one-IsPlaced, reject_slot-IsSound}
use minimosq_mqtt.Transports.StreamServer.Pass.{
  accept_one, reject_slot, listener_paused, open_conn, accept_round, accept_new, hang_up, got,
  read_round, read_into_broker, serve_slot, serve_entry, serve_entries, finish, poll_once,
  max_reads_per_pass, entries, same_fd, is_idle,
}

paused-slots :
    {K : Type 0} (sys : Kernel K) (s : StreamServer K)
    → ((listener_paused sys s).1.slots ≡ s.slots) × ((listener_paused sys s).1.acts ≡ s.acts)
unfolding listener_paused
paused-slots sys s = elim (Bool-cases s.accept_backoff_armed) [
  | inl d ↦ rw (d, listener_paused) (refl, refl)
  | inr d ↦ rw (d, listener_paused) (refl, refl)
]

-- What a pass ends with: the streams are kept, and no slot is dirty.
abbrev pub IsWritten : {K W : Type 0} → ℕ → Client (StreamServer K) W → W → Type 0
IsWritten c client w =
    IsSound c (client.get w)
    × ((ci : ℕ) (t : Slot) → get_elem? (client.get w).slots ci ≡ some t → t.dirty ≡ false)

module _ {K W : Type 0} (sys : Kernel K) (laws : IsKernel sys) (c : ℕ)
    (client : Client (StreamServer K) W)
    (contract : IsClient (send sys c) (close sys c) client) where
  abbrev pub Holds : W → Type 0
  Holds w = IsSound c (client.get w)

  put-Holds : (s : StreamServer K) (w : W) → IsSound c s → Holds (client.put s w)
  put-Holds s w h = subst (IsSound c) (sym (contract.get-put s w)) h

  kept-Holds :
      (s : StreamServer K) (w : W)
      → s.slots ≡ (client.get w).slots
      → s.acts ≡ (client.get w).acts
      → Holds w
      → Holds (client.put s w)
  kept-Holds s w se ae h = put-Holds s w (kept-IsSound c (λ x. 0) (client.get w) s se ae h)

  abbrev called :
      (w : W)
      → Holds w
      → ((ci now : ℕ) → Holds (client.conn_open ci now w).1)
        × ((ci : ℕ) (bytes : Bytes) (now : ℕ) → Holds (client.conn_data ci bytes now w).1)
        × ((ci : ℕ) → Holds (client.conn_closed ci w))
        × ((now : ℕ) → Holds (client.tick now w))
  called w h =
      contract.keeps (IsSound c) (λ s ci bytes v. send-IsSound sys laws c s ci bytes v)
        (λ s ci v. close-IsSound sys laws c s ci v) w h

  open_conn-Holds :
      (conn : Option (ℕ × ℕ)) (now : ℕ) (w : W)
      → Holds w
      → ((ci fd : ℕ) → conn ≡ some (ci, fd) → IsTaken sys c ci fd (client.get w))
      → Holds (open_conn sys c client conn now w)
  unfolding open_conn
  open_conn-Holds none now w h placed = h
  open_conn-Holds (some (ci, fd)) now w h placed =
      elim (Bool-cases (is_ok (client.conn_open ci now w).0)) [
        | inl d ↦ rw (d, open_conn) ((called w h).0 ci now)
        | inr d ↦
            let w1 = (client.conn_open ci now w).1 in
            let same = contract.refused ci now w d in
            let at = subst (IsTaken sys c ci fd) (sym same) (placed ci fd refl) in
            rw (d, open_conn)
              (put-Holds (reject_slot sys ci fd (client.get w1)) w1
                (reject_slot-IsSound sys c ci fd (client.get w1) at ((called w h).0 ci now)))
      ]

  accept_round-Holds :
      (now listener : ℕ) (w : W)
      → Holds w
      → Holds (outcome (accept_round sys c client now listener w))
  unfolding accept_round
  accept_round-Holds now listener w h =
      let one = accept_one sys now listener (client.get w) in
      let (v, placed) = accept_one-IsPlaced sys c now listener (client.get w) h in
      let w1 = client.put one.0.1 w in
      let h1 = put-Holds one.0.1 w v in
      let at : (ci fd : ℕ) → one.0.0 ≡ some (ci, fd) → IsTaken sys c ci fd (client.get w1) =
        λ ci fd d.
          subst (IsTaken sys c ci fd) (sym (contract.get-put one.0.1 w)) (placed ci fd d) in
      elim (Bool-cases one.1) [
        | inl d ↦ rw (d, accept_round) (open_conn-Holds one.0.0 now w1 h1 at)
        | inr d ↦ rw (d, accept_round) h1
      ]

  accept_new-Holds :
      (now listener : ℕ) (w : W) → Holds w → Holds (accept_new sys c client now listener w)
  unfolding accept_new
  accept_new-Holds now listener w h =
      rounds_keep Holds _ _ _ (accept_round-Holds now listener) (kept-Holds _ w refl refl h)

  hang_up-Holds :
      (ci fd : ℕ) (w : W)
      → native_handle ci (client.get w) ≡ some fd
      → Holds w
      → Holds (hang_up sys c client ci fd w)
  unfolding hang_up
  hang_up-Holds ci fd w o h =
      let s = release_slot sys c ci fd (flush sys c ci (client.get w)) in
      (called (client.put s w)
          (put-Holds s w (hang_up-IsSound sys laws c ci fd (client.get w) o h))).2
        ci

  got-Holds :
      (now ci fd : ℕ) (a : Answer Bytes) (w : W)
      → native_handle ci (client.get w) ≡ some fd
      → Holds w
      → Holds (outcome (got sys c client now ci fd a w))
  unfolding got
  got-Holds now ci fd (done []) w o h = hang_up-Holds ci fd w o h
  got-Holds now ci fd (done (b ∷ bytes)) w o h = (called w h).1 ci (b ∷ bytes) now
  got-Holds now ci fd (failed e) w o h = elim (Bool-cases (is_again e)) [
    | inl x ↦ rw (x, got) h
    | inr x ↦ elim (Bool-cases (is_interrupted e)) [
      | inl y ↦ rw (x, y, got) h
      | inr y ↦ rw (x, y, got) (hang_up-Holds ci fd w o h)
    ]
  ]

  read_round-Holds :
      (now ci : ℕ) (w : W) → Holds w → Holds (outcome (read_round sys c client now ci w))
  unfolding read_round
  read_round-Holds now ci w h = elim (Option-cases (native_handle ci (client.get w))) [
    | inl o ↦ rw (o, read_round) h
    | inr (fd, o) ↦
        let answer = sys.read (client.get w).kernel fd 2048 in
        let s : StreamServer K = record (client.get w) { kernel = answer.1 } in
        rw (o, read_round)
          (got-Holds now ci fd answer.0 (client.put s w)
            (ap (native_handle ci) (contract.get-put s w)
              ∙ native_handle_at ci answer.1 (client.get w)
              ∙ o)
            (kept-Holds s w refl refl h))
  ]

  flushed-Holds : (ci : ℕ) (w : W) → Holds w → Holds (on_transport client (flush sys c ci) w)
  flushed-Holds ci w h = put-Holds _ w (flush-IsSound sys laws c ci (client.get w) h)

  serve_slot-Holds :
      (now ci fd : ℕ) (r : Revents) (w : W)
      → Holds w
      → Holds (serve_slot sys c client now ci fd r w)
  unfolding serve_slot read_into_broker
  serve_slot-Holds now ci fd r w h =
      let w1 = if r.writable then on_transport client (flush sys c ci) w else w in
      let h1 : Holds w1 = if_keeps Holds r.writable (flushed-Holds ci w h) h in
      if_keeps Holds (same_fd (native_handle ci (client.get w)) fd)
        (if_keeps Holds (r.readable || r.hung_up || r.error)
          (rounds_keep Holds max_reads_per_pass _ w1 (read_round-Holds now ci) h1) h1)
        h

  serve_entry-Holds :
      (now : ℕ) (e : PollFd × ℕ) (r : Revents) (w : W)
      → Holds w
      → Holds (serve_entry sys c client now e r w)
  unfolding serve_entry
  serve_entry-Holds now (p, ci) r w h = if_keeps Holds (is_idle r) h (
      if_keeps Holds (ci == length (client.get w).slots) (accept_new-Holds now p.fd w h)
        (serve_slot-Holds now ci p.fd r w h))

  serve_entries-Holds :
      (now : ℕ) (es : List (PollFd × ℕ)) (rs : List Revents) (w : W)
      → Holds w
      → Holds (serve_entries sys c client now es rs w)
  unfolding serve_entries
  serve_entries-Holds now [] rs w h = h
  serve_entries-Holds now (e ∷ es) [] w h = h
  serve_entries-Holds now (e ∷ es) (r ∷ rs) w h =
      serve_entries-Holds now es rs _ (serve_entry-Holds now e r w h)

  finish-IsWritten : (now : ℕ) (w : W) → Holds w → IsWritten c client (finish sys c client now w)
  unfolding finish
  finish-IsWritten now w h =
      let w1 = client.tick now w in
      let s = client.get w1 in
      let h1 = (called w h).3 now in
      (
        put-Holds (flush_all sys c s) w1 (flush_all-IsSound sys laws c s h1),
        λ ci t at.
            flush_all-clean sys laws c s ci t h1
              (ap (λ x. get_elem? x.slots ci) (sym (contract.get-put (flush_all sys c s) w1)) ∙ at),
      )

  -- A pass of the event loop over a broker that keeps the contract, whatever the system answers
  -- to each call, where a write takes no more than it is given, an interrupted write uses up a
  -- signal and a write brings none, keeps for each slot that the bytes queued since a connection
  -- took it are those written and those in its ring, in order, that a free slot holds none, and
  -- that each descriptor was accepted as often as it was closed or is held; and no slot is left
  -- dirty.
  pub poll_once-IsWritten :
      (timeout_ms : ℕ) (w : W)
      → IsSound c (client.get w)
      → IsWritten c client (poll_once sys c client timeout_ms w).1
  unfolding poll_once
  poll_once-IsWritten timeout_ms w h =
      let (paused, s) = listener_paused sys (client.get w) in
      let es = entries paused s in
      let answer = sys.poll s.kernel (map (λ e. e.0) es) timeout_ms in
      let clock = posix_now_ms sys answer.1 in
      let w1 = client.put (record s { kernel = clock.1 }) w in
      let (se, ae) = paused-slots sys (client.get w) in
      let h1 : Holds w1 = kept-Holds (record s { kernel = clock.1 }) w se ae h in
      elim (Answer-cases answer.0) [
        | inl ((rc, rs), d) ↦
            rw (d, poll_once) (finish-IsWritten clock.0 _ (serve_entries-Holds clock.0 es rs w1 h1))
        | inr (e, d) ↦ rw (d, poll_once) (finish-IsWritten clock.0 w1 h1)
      ]
