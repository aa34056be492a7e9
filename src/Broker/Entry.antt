-- ===== src/Broker/Entry.antt =====
-- include/minimosq/broker/broker.hpp: the dispatch of a packet and the entry points of the transport and
-- of the application.
pub mod Total
use minimosq_mqtt.Prelude.{
  ℕ, zero, suc, ◌+◌, ◌-◌, ◌%◌, ◌^◌, Bool, true, false, not, ◌&&◌, ◌||◌, Option, none, some, ltb,
  ◌==◌, if◌then◌else◌, Bytes, length,
}
use minimosq_mqtt.Core.Span.{Err, is_ok, malformed, oversize, capacity}
use minimosq_mqtt.Protocol.Constants.{
  QoS, PacketType, connect, connack, publish, puback, pubrec, pubrel, pubcomp, subscribe, suback,
  unsubscribe, unsuback, pingreq, pingresp, disconnect, reserved_0, reserved_15, type_eq,
  packet_type, packet_flags, fixed_flags_valid,
}
use minimosq_mqtt.Protocol.Frame.{FrameParser, feed}
use minimosq_mqtt.Protocol.Packets.Build.{packet_overhead, build_pingresp}
use minimosq_mqtt.Protocol.Packets.Parse.{is_qos_0}
use minimosq_mqtt.Topic.{topic_name_valid}
use minimosq_mqtt.Broker.Session.{Session}
use minimosq_mqtt.Broker.State.{
  Env, EventKind, connection_opened, connect_timeout, keepalive_timeout, idle_timeout, Conn,
  reset_conn, Broker, conn_at, modify_conn, session_at, no_session, out_size, is_connected,
}
use minimosq_mqtt.Broker.Notify.{notify_conn, notify_violation, violation, mark_dead}
use minimosq_mqtt.Broker.Clock.{refresh_deadline, deadline_passed}
use minimosq_mqtt.Broker.Send.{send_to}
use minimosq_mqtt.Broker.Delivery.{out_cap, pump_session}
use minimosq_mqtt.Broker.Routing.{
  for_each_session, apply_retain, route_publish, replay_retained, any_pending,
}
use minimosq_mqtt.Broker.Teardown.{flush_dead, expire_sessions}
use minimosq_mqtt.Broker.Connect.{handle_connect}
use minimosq_mqtt.Broker.Subscribe.{handle_subscribe, handle_unsubscribe}
use minimosq_mqtt.Broker.Acks.{
  handle_publish, handle_puback, handle_pubrec, handle_pubrel, handle_pubcomp, handle_disconnect,
}

module _ {T A : Type 0} (env : Env T A) where
  unfoldable pub handle_pingreq : ℕ → Bytes → Broker T A → Broker T A
  handle_pingreq ci body b =
      if not (length body == 0)
      then violation ci malformed b
      else send_to env ci (build_pingresp (out_cap env)) b

  -- The `switch` of `on_packet` on a connection with a session. A second CONNECT is refused by
  -- `handle_connect`.
  unfoldable pub session_packet :
      PacketType → ℕ → ℕ → Session A → ℕ → Bytes → Broker T A → Broker T A
  session_packet connect ci si s first_byte body b = handle_connect env ci body b
  session_packet publish ci si s first_byte body b = handle_publish env ci si s first_byte body b
  session_packet pubrel ci si s first_byte body b = handle_pubrel env ci si body b
  session_packet puback ci si s first_byte body b = handle_puback ci si s body b
  session_packet pubrec ci si s first_byte body b = handle_pubrec env ci si s body b
  session_packet pubcomp ci si s first_byte body b = handle_pubcomp ci si s body b
  session_packet subscribe ci si s first_byte body b = handle_subscribe env ci si body b
  session_packet unsubscribe ci si s first_byte body b = handle_unsubscribe env ci si body b
  session_packet pingreq ci si s first_byte body b = handle_pingreq ci body b
  session_packet disconnect ci si s first_byte body b = handle_disconnect ci si body b
  session_packet connack ci si s first_byte body b = violation ci malformed b
  session_packet suback ci si s first_byte body b = violation ci malformed b
  session_packet unsuback ci si s first_byte body b = violation ci malformed b
  session_packet pingresp ci si s first_byte body b = violation ci malformed b
  session_packet reserved_0 ci si s first_byte body b = violation ci malformed b
  session_packet reserved_15 ci si s first_byte body b = violation ci malformed b

  -- The part of `on_packet` behind the flags: without a session only CONNECT is served.
  unfoldable pub serve : PacketType → ℕ → ℕ → Bytes → Broker T A → Broker T A
  serve type ci first_byte body b =
      let si = (conn_at ci b).session in
      if si == no_session
      then if type_eq type connect then handle_connect env ci body b else violation ci Err.state b
      else elim (session_at si b) [
        | none ↦ b
        | some s ↦ session_packet type ci si s first_byte body b
      ]

  -- The Boolean is `false` when the parser has to stop.
  unfoldable pub on_packet : ℕ → Broker T A → ℕ → Bytes → Broker T A × Bool
  on_packet ci b first_byte body =
      let type = packet_type first_byte in
      let b1 =
        if fixed_flags_valid type (packet_flags first_byte)
        then serve type ci first_byte body b
        else violation ci malformed b in
      (b1, not (conn_at ci b1).dead)

  unfoldable pub conn_open : ℕ → ℕ → Broker T A → Err × Broker T A
  conn_open ci now_ms b =
      if not (ltb ci env.max_connections) || (conn_at ci b).active then (Err.state, b) else (
        Err.ok,
        notify_conn env connection_opened ci (
            modify_conn ci
              (λ c. record (reset_conn c) {
                active = true;
                deadline_ms = (now_ms + env.connect_timeout_ms) % 2 ^ 32;
              })
              b),
      )

  unfoldable pub conn_closed : ℕ → Broker T A → Broker T A
  conn_closed ci b =
      if not (ltb ci env.max_connections) || not (conn_at ci b).active
      then b
      else flush_dead env
          (modify_conn ci (λ c. record c { notify_transport = false; dead = true }) b)

  -- The clock and the deadline at the start of `conn_data`.
  unfoldable pub note_traffic : ℕ → ℕ → Broker T A → Broker T A
  note_traffic ci now_ms b =
      let b1 = record b { now_ms = now_ms } in
      if (conn_at ci b1).session == no_session
      then b1
      else modify_conn ci (refresh_deadline env.traits now_ms) b1

  -- What follows `feed`: the parser is written back, an error ends the connection, then the teardown.
  unfoldable pub after_feed : ℕ → Err → FrameParser → Broker T A → Err × Broker T A
  after_feed ci e q b =
      let b1 = modify_conn ci (λ c. record c { parser = q }) b in
      let b2 = if is_ok e then b1 else mark_dead ci (notify_violation ci e b1) in
      (e, flush_dead env b2)

  -- The parser of the connection is fed; the callback does not touch it. `none` means that the fuel of
  -- the parser ran out.
  unfoldable pub conn_data : ℕ → Bytes → ℕ → Broker T A → Option (Err × Broker T A)
  conn_data ci input now_ms b =
      if not (ltb ci env.max_connections) || not (conn_at ci b).active
      then some (Err.state, b)
      else if (conn_at ci b).dead
      then some (Err.ok, b)
      else (let b1 = note_traffic ci now_ms b in
          elim (feed env.max_packet_size (on_packet ci) (conn_at ci b1).parser b1 input) [
            | none ↦ none
            | some (e, q, b2) ↦ some (after_feed ci e q b2)
          ])

  abbrev pub is_armed : Conn → Bool
  is_armed c =
      if c.session == no_session
      then ltb 0 env.connect_timeout_ms
      else ltb 0 c.keepalive_s || ltb 0 env.max_idle_ms

  abbrev pub timeout_kind : Conn → EventKind
  timeout_kind c =
      if c.session == no_session
      then connect_timeout
      else if ltb 0 c.keepalive_s
      then keepalive_timeout
      else idle_timeout

  -- The loop of `tick` over the connections.
  unfoldable pub tick_conns : ℕ → ℕ → ℕ → Broker T A → Broker T A
  tick_conns now_ms zero i b = b
  tick_conns now_ms (suc n) i b =
      let c = conn_at i b in
      tick_conns now_ms n (suc i) (
        if (not c.active || c.dead) || not (is_armed c && deadline_passed now_ms c.deadline_ms)
        then b
        else mark_dead i (notify_conn env (timeout_kind c) i b))

  -- A paused replay and a queue that the transport refused go on.
  unfoldable pub tick_session : ℕ → Session A → Broker T A → Broker T A
  tick_session si s b =
      if not (is_connected s) || not (ltb s.conn env.max_connections) || (conn_at s.conn b).dead
      then b
      else pump_session env si (if any_pending s.subs then replay_retained env s.conn si b else b)

  unfoldable pub tick : ℕ → Broker T A → Broker T A
  tick now_ms b =
      let b1 = tick_conns now_ms env.max_connections 0 (record b { now_ms = now_ms }) in
      expire_sessions env now_ms (flush_dead env (for_each_session tick_session b1))

  -- The size tests of `publish`: too long to own or to build.
  abbrev pub publish_too_large : Bytes → Bytes → QoS → Bool
  publish_too_large topic payload qos =
      let id_len = if is_qos_0 qos then 0 else 2 in
      ltb env.max_topic_len (length topic)
      || ltb (out_size env.traits - packet_overhead) (2 + length topic + id_len + length payload)

  -- The result of `publish` behind the guards.
  abbrev pub publish_result : Bytes → QoS → Bool → Err
  publish_result payload qos kept =
      if not (is_qos_0 qos) && ltb env.max_payload_len (length payload)
      then oversize
      else if kept
      then Err.ok
      else capacity

  unfoldable pub publish_message : Bytes → Bytes → QoS → Bool → Broker T A → Err × Broker T A
  publish_message topic payload qos retain b =
      if not (topic_name_valid topic)
      then (malformed, b)
      else if publish_too_large topic payload qos
      then (oversize, b)
      else (let (kept, b1) = if retain then apply_retain env topic payload qos b else (true, b) in
          (
            publish_result payload qos kept,
            flush_dead env (route_publish env topic payload qos b1),
          ))
