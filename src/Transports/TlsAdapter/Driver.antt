-- ===== src/Transports/TlsAdapter/Driver.antt =====
-- include/minimosq/transports/tls_adapter.hpp: `drain_engines` and the driver, by which the raw transport
-- reaches the broker.
use minimosq_mqtt.Prelude.{
  ℕ, zero, suc, Bool, true, false, not, ◌||◌, Option, none, some, ltb, ◌==◌, if◌then◌else◌, Bytes,
  length, take, set, get_elem?,
}
use minimosq_mqtt.Core.Span.{Err, malformed, capacity}
use minimosq_mqtt.Transports.Client.{Client, on_transport}
use minimosq_mqtt.Transports.TlsAdapter.{Report, Opened, Engine, TlsAdapter, send_raw, close}

-- How a connection that is drained ends up: `continue` or its end.
pub data Drained (S : Type 0) : Type 0 where
  kept failed : S → Drained S

module _ {E T W : Type 0} (engine : Engine E) (raw_send : T → ℕ → Bytes → T × Bool)
    (raw_close : T → ℕ → T) (buf_size : ℕ) (client : Client (TlsAdapter E T) W) where
  -- What an engine holds is written.
  unfoldable pub drain_report : ℕ → Report → TlsAdapter E T → Drained (TlsAdapter E T)
  drain_report ci r a =
      if not r.ok || ltb buf_size r.len
      then failed a
      else if r.len == 0
      then kept a
      else (let (a1, taken) = send_raw engine raw_send raw_close buf_size ci (take r.len r.buf) a in
          if taken then kept a1 else failed a1)

  unfoldable pub drain_slot :
      (E → Bytes → Report × E) → ℕ → TlsAdapter E T → Drained (TlsAdapter E T)
  drain_slot drain ci a = elim (get_elem? a.engine_open ci) [
    | none ↦ kept a
    | some on ↦ elim (get_elem? a.engines ci) [
      | none ↦ kept a
      | some e ↦
          if not on
          then kept a
          else (let (r, e1) = drain e a.cipher in
              drain_report ci r (record a { engines = set a.engines ci e1; cipher = r.buf }))
    ]
  ]

  -- `engine_open_[ci] = false; raw_.close(ci)`
  abbrev pub shut_slot : ℕ → TlsAdapter E T → TlsAdapter E T
  shut_slot ci a = record a { engine_open = set a.engine_open ci false; raw = raw_close a.raw ci }

  unfoldable pub drain_one : (E → Bytes → Report × E) → ℕ → W → W
  drain_one drain ci w = elim (drain_slot drain ci (client.get w)) [
    | kept a ↦ client.put a w
    | failed a ↦ client.conn_closed ci (client.put (shut_slot ci a) w)
  ]

  -- The loop of `drain_engines`, over so many connections from one on.
  unfoldable pub drain_from : (E → Bytes → Report × E) → ℕ → ℕ → W → W
  drain_from drain zero ci w = w
  drain_from drain (suc n) ci w = drain_from drain n (suc ci) (drain_one drain ci w)

  -- Nothing for an engine that does not offer `drain`.
  unfoldable pub drain_all : Option (E → Bytes → Report × E) → W → W
  drain_all none w = w
  drain_all (some drain) w = drain_from drain (length (client.get w).engines) 0 w

  unfoldable pub drain_engines : W → W
  drain_engines w = drain_all engine.drain w

  unfoldable pub conn_open : ℕ → ℕ → W → Err × W
  conn_open ci now_ms w = elim (get_elem? (client.get w).engines ci) [
    | none ↦ (Err.state, w)
    | some e ↦ client.conn_open ci now_ms (
        on_transport client
          (λ a. record a {
            engines = set a.engines ci (engine.reset e);
            engine_open = set a.engine_open ci true;
          })
          w)
  ]

  unfoldable pub conn_closed : ℕ → W → W
  conn_closed ci w = elim (get_elem? (client.get w).engines ci) [
    | none ↦ w
    | some e ↦
        client.conn_closed ci
          (on_transport client (λ a. record a { engine_open = set a.engine_open ci false }) w)
  ]

  -- "close() rather than raw_.close()", and the broker is told.
  unfoldable pub drop_conn : Err → ℕ → W → Err × W
  drop_conn e ci w = (
    e,
    client.conn_closed ci
        (on_transport client (λ a. close engine raw_send raw_close buf_size a ci) w),
  )

  -- The plaintext goes to the broker.
  unfoldable pub pass_plain : ℕ → Opened → ℕ → W → Err × W
  pass_plain ci r now_ms w =
      if r.plain_len == 0
      then (Err.ok, w)
      else client.conn_data ci (take r.plain_len r.plain) now_ms w

  -- The report on ciphertext that came in: first the records that the engine wants on the wire.
  unfoldable pub data_report : ℕ → Opened → ℕ → W → Err × W
  data_report ci r now_ms w =
      if (not r.ok || ltb buf_size r.plain_len) || ltb buf_size r.cipher_len
      then drop_conn malformed ci w
      else if r.cipher_len == 0
      then pass_plain ci r now_ms w
      else (let (a, taken) =
            send_raw engine raw_send raw_close buf_size ci (take r.cipher_len r.cipher)
              (client.get w) in
          let w1 = client.put a w in
          if taken then pass_plain ci r now_ms w1 else drop_conn capacity ci w1)

  unfoldable pub conn_data : ℕ → Bytes → ℕ → W → Err × W
  conn_data ci cipher_in now_ms w = elim (get_elem? (client.get w).engines ci) [
    | none ↦ (Err.state, w)
    | some e ↦
        let a = client.get w in
        let (r, e1) = engine.on_ciphertext e cipher_in a.plain a.cipher_out in
        data_report ci r now_ms (
          client.put
            (record a { engines = set a.engines ci e1; plain = r.plain; cipher_out = r.cipher }) w)
  ]

  unfoldable pub tick : ℕ → W → W
  tick now_ms w = client.tick now_ms (drain_engines w)

  -- The driver poses as the broker towards the raw transport.
  abbrev pub driver : Client T W
  driver = record {
    get = λ w. (client.get w).raw;
    put = λ raw w. on_transport client (λ a. record a { raw = raw }) w;
    conn_open = conn_open;
    conn_data = conn_data;
    conn_closed = conn_closed;
    tick = tick;
  }
