-- ===== src/Transports/Pipe/Pass.antt =====
-- include/minimosq/transports/posix/pipe.hpp: `read_into_broker`, `poll_once` and `run`.
use minimosq_mqtt.Prelude.{
  ℕ, zero, suc, true, false, not, ◌&&◌, ◌||◌, Option, none, some, List, [], ◌∷◌, if◌then◌else◌,
  Bytes,
}
use minimosq_mqtt.Core.Span.{is_ok}
use minimosq_mqtt.Transports.Ring.{is_empty}
use minimosq_mqtt.Transports.Kernel.{
  Kernel, Answer, done, failed, PollFd, Revents, posix_now_ms, is_interrupted, is_again,
}
use minimosq_mqtt.Transports.Rounds.{Round, go_on, stop, rounds}
use minimosq_mqtt.Transports.Client.{Client, on_transport}
use minimosq_mqtt.Transports.Pipe.{Pipe, is_open, flush, flush_pass, close_fds}

abbrev pub max_reads_per_pass : ℕ
max_reads_per_pass = 8

abbrev pub no_events : Revents
no_events = record {
  readable = false;
  writable = false;
  hung_up = false;
  error = false;
  bad = false;
}

-- What `poll` is asked: the read end, and the write end if the ring holds bytes.
unfoldable pub entries : {K : Type 0} → ℕ → Pipe K → List PollFd
entries rfd p =
    let read_end : PollFd = record { fd = rfd; want_in = true; want_out = false } in
    elim p.wfd [
      | none ↦ read_end ∷ []
      | some fd ↦
          if is_empty p.ring
          then read_end ∷ []
          else read_end ∷ record { fd = fd; want_in = false; want_out = true } ∷ []
    ]

-- The events of the read end; those of the write end, if it was asked for.
abbrev pub read_events : List Revents → Revents
read_events [] = no_events
read_events (r ∷ rs) = r

abbrev pub write_events : List PollFd → List Revents → Revents
write_events (e ∷ f ∷ es) (r ∷ s ∷ rs) = s
write_events _ _ = no_events

module _ {K W : Type 0} (sys : Kernel K) (capacity : ℕ) (client : Client (Pipe K) W) where
  -- EOF or a fatal error.
  unfoldable pub hang_up : W → W
  hang_up w =
      client.conn_closed 0 (on_transport client (λ p. close_fds sys (flush sys capacity p)) w)

  unfoldable pub got : ℕ → Answer Bytes → W → Round W
  got now (done []) w = stop (hang_up w)
  got now (done (b ∷ bytes)) w = go_on (client.conn_data 0 (b ∷ bytes) now w).1
  got now (failed e) w =
      if is_again e then stop w else if is_interrupted e then go_on w else stop (hang_up w)

  unfoldable pub read_round : ℕ → W → Round W
  read_round now w = elim (client.get w).rfd [
    | none ↦ stop w
    | some fd ↦
        let (answer, k) = sys.read (client.get w).kernel fd 2048 in
        got now answer (on_transport client (λ p. record p { kernel = k }) w)
  ]

  unfoldable pub read_into_broker : ℕ → W → W
  read_into_broker now w = rounds max_reads_per_pass (read_round now) w

  -- A pair that is new is opened in the broker.
  unfoldable pub start : ℕ → W → W
  start now w =
      if not (client.get w).started && is_open (client.get w).rfd
      then (let (e, w1) =
            client.conn_open 0 now (on_transport client (λ p. record p { started = true }) w) in
          if is_ok e then w1 else on_transport client (close_fds sys) w1)
      else w

  -- `broker.tick(now)`, then what the pass has queued is written.
  unfoldable pub finish : ℕ → W → W
  finish now w = on_transport client (flush_pass sys capacity) (client.tick now w)

  -- A pass in which `poll` answered.
  unfoldable pub serve : ℕ → Revents → Revents → W → W
  serve now read_end write_end w =
      let w1 = if write_end.writable then on_transport client (flush sys capacity) w else w in
      if read_end.readable || read_end.hung_up || read_end.error
      then read_into_broker now w1
      else w1

  -- The pass behind the start, with the read end.
  unfoldable pub poll_open : ℕ → ℕ → W → ℕ × W
  poll_open timeout_ms rfd w =
      let es = entries rfd (client.get w) in
      let (answer, k) = sys.poll (client.get w).kernel es timeout_ms in
      let (now, k1) = posix_now_ms sys k in
      let w1 = on_transport client (λ p. record p { kernel = k1 }) w in
      elim answer [
        | failed e ↦ (0, finish now w1)
        | done (rc, rs) ↦ (rc, finish now (serve now (read_events rs) (write_events es rs) w1))
      ]

  unfoldable pub poll_once : ℕ → W → ℕ × W
  poll_once timeout_ms w =
      let (now_start, k) = posix_now_ms sys (client.get w).kernel in
      let w1 = start now_start (on_transport client (λ p. record p { kernel = k }) w) in
      elim (client.get w1).rfd [
        | none ↦ (0, client.tick now_start w1)
        | some rfd ↦ poll_open timeout_ms rfd w1
      ]

  -- `run`, for at most so many passes; `none` when they do not suffice.
  unfoldable pub run_loop : ℕ → ℕ → W → Option W
  run_loop zero tick_ms w = none
  run_loop (suc n) tick_ms w = elim ((client.get w).running && is_open (client.get w).rfd) [
    | false ↦ some w
    | true ↦ run_loop n tick_ms (poll_once tick_ms w).1
  ]

  unfoldable pub run : ℕ → ℕ → W → Option W
  run n tick_ms w = run_loop n tick_ms (on_transport client (λ p. record p { running = true }) w)
