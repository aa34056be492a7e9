-- ===== src/Transports/StreamServer/Pass.antt =====
-- include/minimosq/transports/posix/stream_server.hpp: `accept_new`, `read_into_broker` and `poll_once`.
use minimosq_mqtt.Prelude.{
  ℕ, zero, suc, ◌+◌, ◌%◌, ◌^◌, Bool, true, false, not, ◌||◌, Option, none, some, List, [], ◌∷◌,
  ◌==◌, if◌then◌else◌, Bytes, length, get_elem?, map,
}
use minimosq_mqtt.Transports.Rounds.{Round, go_on, stop, rounds}
use minimosq_mqtt.Broker.Teardown.{is_earlier}
use minimosq_mqtt.Core.Span.{is_ok}
use minimosq_mqtt.Transports.Ring.{is_empty, clear}
use minimosq_mqtt.Transports.Kernel.{
  Kernel, Answer, done, failed, PollFd, Revents, posix_now_ms, set_nonblocking, is_interrupted,
  is_again, is_aborted,
}
use minimosq_mqtt.Transports.Client.{Client, on_transport}
use minimosq_mqtt.Transports.StreamServer.{
  Slot, accepted_fd, closed_fd, taken, StreamServer, act, put_slot, native_handle, flush,
  release_slot, flush_all,
}

abbrev pub max_reads_per_pass : ℕ
max_reads_per_pass = 8

-- The first slot that is free, and the slot.
unfoldable pub free_slot : List Slot → Option (ℕ × Slot)
free_slot [] = none
free_slot (t ∷ slots) = elim t.fd [
  | none ↦ some (0, t)
  | some fd ↦ elim (free_slot slots) [ none ↦ none | some (i, u) ↦ some (suc i, u) ]
]

-- `s.fd == pfds[i].fd`
abbrev pub same_fd : Option ℕ → ℕ → Bool
same_fd none fd = false
same_fd (some x) fd = x == fd

module _ {K : Type 0} (sys : Kernel K) where
  -- The `setsockopt` of `set_nodelay`, on the sockets of TCP.
  abbrev pub set_nodelay : ℕ → StreamServer K → StreamServer K
  set_nodelay fd s = if s.tcp_nodelay then record s { kernel = sys.no_delay s.kernel fd } else s

  -- A socket that gets no slot is closed.
  abbrev pub refuse_fd : ℕ → StreamServer K → StreamServer K
  refuse_fd fd s = act (closed_fd fd) (record s { kernel = sys.close_fd s.kernel fd })

  -- The slot takes the descriptor.
  abbrev pub take_slot : ℕ → ℕ → Slot → StreamServer K → StreamServer K
  take_slot fd ci t s =
      act (taken ci) (
        put_slot ci (record { fd = some fd; ring = clear t.ring; dirty = false })
          (set_nodelay fd s))

  -- Where the descriptor of a new connection goes: the slot and the descriptor, or `none` and it is closed.
  unfoldable pub place : ℕ → StreamServer K → Option (ℕ × ℕ) × StreamServer K
  place fd s = elim (free_slot s.slots) [
    | none ↦ (none, refuse_fd fd s)
    | some (ci, t) ↦
        let (ok, k) = set_nonblocking sys fd s.kernel in
        let s1 = record s { kernel = k } in
        if ok then (some (ci, fd), take_slot fd ci t s1) else (none, refuse_fd fd s1)
  ]

  -- One attempt; the listener is open. `none` when it gives no connection; the Boolean is false where the
  -- loop returns.
  unfoldable pub accept_one : ℕ → ℕ → StreamServer K → (Option (ℕ × ℕ) × StreamServer K) × Bool
  accept_one now listener s =
      let (answer, k) = sys.accept s.kernel listener in
      let s1 = record s { kernel = k } in
      elim answer [
        | done fd ↦ (place fd (act (accepted_fd fd) s1), true)
        | failed e ↦
            if is_interrupted e || is_aborted e
            then ((none, s1), true)
            else if is_again e
            then ((none, s1), false)
            else (
              (
                none,
                record s1 {
                  accept_backoff_armed = true;
                  accept_retry_at_ms = (now + 1000) % 2 ^ 32;
                },
              ),
              false,
            )
      ]

  -- What `accept_new` does with a connection that the broker does not take.
  unfoldable pub reject_slot : ℕ → ℕ → StreamServer K → StreamServer K
  reject_slot ci fd s = elim (get_elem? s.slots ci) [
    | none ↦ s
    | some t ↦ put_slot ci (record t { fd = none }) (refuse_fd fd s)
  ]

  -- The first lines of `poll_once`: the clock is read only if the backoff is armed.
  unfoldable pub listener_paused : StreamServer K → Bool × StreamServer K
  listener_paused s =
      if s.accept_backoff_armed
      then (let (now, k) = posix_now_ms sys s.kernel in
          (is_earlier now s.accept_retry_at_ms, record s { kernel = k }))
      else (false, s)

-- The `pollfd` of a connection, and its slot.
unfoldable pub slot_entries : ℕ → List Slot → List (PollFd × ℕ)
slot_entries ci [] = []
slot_entries ci (t ∷ slots) = elim t.fd [
  | none ↦ slot_entries (suc ci) slots
  | some fd ↦
      (record { fd = fd; want_in = true; want_out = not (is_empty t.ring) }, ci)
      ∷ slot_entries (suc ci) slots
]

-- What `poll` is asked: the listener, with the number of slots in place of a slot, and the connections.
unfoldable pub entries : {K : Type 0} → Bool → StreamServer K → List (PollFd × ℕ)
unfolding slot_entries
entries paused s =
    let conns = slot_entries 0 s.slots in
    elim s.listen_fd [
      | none ↦ conns
      | some fd ↦
          if paused
          then conns
          else (record { fd = fd; want_in = true; want_out = false }, length s.slots) ∷ conns
    ]

abbrev pub is_idle : Revents → Bool
is_idle r = not (r.readable || r.writable || r.hung_up || r.error || r.bad)

module _ {K W : Type 0} (sys : Kernel K) (capacity : ℕ) (client : Client (StreamServer K) W) where
  -- The connection that an attempt gave is opened in the broker.
  unfoldable pub open_conn : Option (ℕ × ℕ) → ℕ → W → W
  open_conn none now w = w
  open_conn (some (ci, fd)) now w =
      let (e, w1) = client.conn_open ci now w in
      if is_ok e then w1 else on_transport client (reject_slot sys ci fd) w1

  unfoldable pub accept_round : ℕ → ℕ → W → Round W
  accept_round now listener w =
      let ((conn, s), more) = accept_one sys now listener (client.get w) in
      let w1 = client.put s w in if more then go_on (open_conn conn now w1) else stop w1

  unfoldable pub accept_new : ℕ → ℕ → W → W
  accept_new now listener w =
      let w1 = on_transport client (λ s. record s { accept_backoff_armed = false }) w in
      rounds (length (client.get w).slots) (accept_round now listener) w1

  -- EOF or a fatal error.
  unfoldable pub hang_up : ℕ → ℕ → W → W
  hang_up ci fd w =
      client.conn_closed ci
        (on_transport client (λ s. release_slot sys capacity ci fd (flush sys capacity ci s)) w)

  unfoldable pub got : ℕ → ℕ → ℕ → Answer Bytes → W → Round W
  got now ci fd (done []) w = stop (hang_up ci fd w)
  got now ci fd (done (b ∷ bytes)) w = go_on (client.conn_data ci (b ∷ bytes) now w).1
  got now ci fd (failed e) w =
      if is_again e then stop w else if is_interrupted e then go_on w else stop (hang_up ci fd w)

  unfoldable pub read_round : ℕ → ℕ → W → Round W
  read_round now ci w = elim (native_handle ci (client.get w)) [
    | none ↦ stop w
    | some fd ↦
        let (answer, k) = sys.read (client.get w).kernel fd 2048 in
        got now ci fd answer (on_transport client (λ s. record s { kernel = k }) w)
  ]

  unfoldable pub read_into_broker : ℕ → ℕ → W → W
  read_into_broker now ci w = rounds max_reads_per_pass (read_round now ci) w

  -- A connection that `poll` reported, unless its slot was closed or reused meanwhile.
  unfoldable pub serve_slot : ℕ → ℕ → ℕ → Revents → W → W
  serve_slot now ci fd r w =
      if same_fd (native_handle ci (client.get w)) fd
      then (let w1 = if r.writable then on_transport client (flush sys capacity ci) w else w in
          if r.readable || r.hung_up || r.error then read_into_broker now ci w1 else w1)
      else w

  -- Nothing in a pass moves the listener, so its entry has `listen_fd_`.
  unfoldable pub serve_entry : ℕ → PollFd × ℕ → Revents → W → W
  serve_entry now (p, ci) r w =
      if is_idle r
      then w
      else if ci == length (client.get w).slots
      then accept_new now p.fd w
      else serve_slot now ci p.fd r w

  -- `poll` sets `revents` in every entry.
  unfoldable pub serve_entries : ℕ → List (PollFd × ℕ) → List Revents → W → W
  serve_entries now [] rs w = w
  serve_entries now (e ∷ es) [] w = w
  serve_entries now (e ∷ es) (r ∷ rs) w = serve_entries now es rs (serve_entry now e r w)

  -- `broker.tick(now)`, then what the pass has queued is written.
  unfoldable pub finish : ℕ → W → W
  finish now w = on_transport client (flush_all sys capacity) (client.tick now w)

  unfoldable pub poll_once : ℕ → W → ℕ × W
  poll_once timeout_ms w =
      let (paused, s) = listener_paused sys (client.get w) in
      let es = entries paused s in
      let (answer, k) = sys.poll s.kernel (map (λ e. e.0) es) timeout_ms in
      let (now, k1) = posix_now_ms sys k in
      let w1 = client.put (record s { kernel = k1 }) w in
      elim answer [
        | failed e ↦ (0, finish now w1)
        | done (rc, rs) ↦ (rc, finish now (serve_entries now es rs w1))
      ]

  -- `run`, for at most so many passes; `none` when they do not suffice.
  unfoldable pub run_loop : ℕ → ℕ → W → Option W
  run_loop zero tick_ms w = none
  run_loop (suc n) tick_ms w = elim (client.get w).running [
    | false ↦ some w
    | true ↦ run_loop n tick_ms (poll_once tick_ms w).1
  ]

  unfoldable pub run : ℕ → ℕ → W → Option W
  run n tick_ms w = run_loop n tick_ms (on_transport client (λ s. record s { running = true }) w)
