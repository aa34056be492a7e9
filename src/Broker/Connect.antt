-- ===== src/Broker/Connect.antt =====
-- include/minimosq/broker/broker.hpp: `handle_connect`, in the order of its guards.
pub mod Reserved
use minimosq_mqtt.Prelude.{
  ℕ, ◌%◌, ◌^◌, Bool, true, false, not, ◌&&◌, ◌||◌, Option, none, some, [], ltb, ◌==◌, if◌then◌else◌,
  Bytes, length,
}
use minimosq_mqtt.Core.Span.{malformed, state}
use minimosq_mqtt.Core.StaticVector.{assigned}
use minimosq_mqtt.Core.Pool.{alloc}
use minimosq_mqtt.Protocol.Constants.{
  ConnackCode, accepted, unacceptable_protocol, identifier_rejected, server_unavailable,
  protocol_level_311, connack_code,
}
use minimosq_mqtt.Protocol.Utf8.{utf8_valid}
use minimosq_mqtt.Protocol.Packets.Parse
use minimosq_mqtt.Protocol.Packets.Parse.{Parsed, ConnectPacket, parse_connect}
use minimosq_mqtt.Protocol.Packets.Build.{build_connack}
use minimosq_mqtt.Topic.{topic_name_valid}
use minimosq_mqtt.Broker.Session.{Session, new_session}
use minimosq_mqtt.Broker.State.{
  Env, session_taken_over, session_evicted, session_resumed, session_created, Conn, Broker, conn_at,
  modify_conn, hang, session_at, modify_session, no_session, is_connected,
}
use minimosq_mqtt.Broker.Notify.{
  notify_refused, notify_violation, notify_session, violation, mark_dead,
}
use minimosq_mqtt.Broker.Clock.{refresh_deadline}
use minimosq_mqtt.Broker.Send.{send_to}
use minimosq_mqtt.Broker.ClientId.{uses_reserved_prefix, find_client, generate_client_id}
use minimosq_mqtt.Broker.Delivery.{out_cap, resume_session}
use minimosq_mqtt.Broker.Teardown.{flush_dead, oldest_disconnected_session, release_session}

-- How the guards end: a CONNACK refusal, a close without one, or a client id to go on with. `none` from
-- the search for a free id does not return.
pub data Checked : Type 0 where
  refused : ConnackCode → Bytes → Checked
  closed stuck : Checked
  admitted : Bytes → Checked

abbrev pub connack_ok : ConnackCode → Bool
connack_ok code = connack_code code == 0

module _ {T A : Type 0} (env : Env T A) where
  unfoldable pub refuse : ℕ → ConnackCode → Bytes → Broker T A → Broker T A
  refuse ci code client_id b =
      mark_dead ci (
        send_to env ci (build_connack (out_cap env) false code)
          (notify_refused ci client_id code b))

  -- `notify_violation` and `c.dead = true`.
  unfoldable pub close_malformed : ℕ → Broker T A → Broker T A
  close_malformed ci b = mark_dead ci (notify_violation ci malformed b)

  -- The client id: the packet's, or an assigned one for a clean session without.
  unfoldable pub choose_id : ConnectPacket → Broker T A → Checked × Broker T A
  choose_id p b =
      if not (length p.client_id == 0)
      then (admitted p.client_id, b)
      else if not p.clean_session
      then (refused identifier_rejected p.client_id, b)
      else elim (generate_client_id b) [ none ↦ (stuck, b) | some (id, b1) ↦ (admitted id, b1) ]

  -- The guards on the will.
  unfoldable pub check_will : ConnectPacket → Bytes → Checked
  check_will p id =
      if not p.has_will
      then admitted id
      else if not (topic_name_valid p.will_topic)
      then closed
      else if ltb env.max_topic_len (length p.will_topic)
          || ltb env.max_payload_len (length p.will_payload)
      then refused server_unavailable id
      else admitted id

  -- The guards on the client id that was chosen.
  unfoldable pub check_id : ConnectPacket → Bytes → Checked
  check_id p id =
      if ltb env.max_client_id_len (length id)
      then refused identifier_rejected id
      else if not (utf8_valid id) || (p.has_username && not (utf8_valid p.username))
      then closed
      else if not (length p.client_id == 0) && uses_reserved_prefix id
      then refused identifier_rejected id
      else check_will p id

  -- The guards from the protocol name up to the authentication.
  unfoldable pub check_connect : ConnectPacket → Broker T A → Checked × Broker T A
  check_connect p b =
      if not p.protocol_name_ok
      then (closed, b)
      else if not (p.protocol_level == protocol_level_311)
      then (refused unacceptable_protocol [], b)
      else (let (r, b1) = choose_id p b in
          (
            elim r as (λ _. Checked) [
              | refused code id ↦ refused code id
              | closed ↦ closed
              | stuck ↦ stuck
              | admitted id ↦ check_id p id
            ],
            b1,
          ))

  -- Session takeover: the connection that has the client id now is dropped first.
  unfoldable pub take_over : Bytes → Broker T A → Broker T A
  take_over client_id b = elim (find_client client_id b) [
    | none ↦ b
    | some si ↦ elim (session_at si b) [
      | none ↦ b
      | some s ↦
          if is_connected s
          then flush_dead env (mark_dead s.conn (notify_session session_taken_over s b))
          else b
    ]
  ]

  -- `sessions_.alloc()`; the answer `none` is a null pointer.
  unfoldable pub alloc_session : Broker T A → Option ℕ × Broker T A
  alloc_session b = elim (alloc (new_session env.default_ctx) b.sessions) [
    | none ↦ (none, b)
    | some (si, q) ↦ (some si, record b { sessions = q })
  ]

  -- A new session; on a full pool in place of the one that has been disconnected longest.
  unfoldable pub claim_session : Broker T A → Option ℕ × Broker T A
  claim_session b =
      let (found, b1) = alloc_session b in
      elim found [
        | some si ↦ (some si, b1)
        | none ↦ elim (oldest_disconnected_session b1) [
          | none ↦ (none, b1)
          | some (sj, victim) ↦
              alloc_session (release_session sj (notify_session session_evicted victim b1))
        ]
      ]

  -- What the CONNECT writes into its session.
  unfoldable pub connect_fields : ConnectPacket → ℕ → A → Session A → Session A
  connect_fields p ci ctx s =
      let t = record s {
        clean_session = p.clean_session;
        conn = ci % 2 ^ 16;
        auth_ctx = ctx;
        has_will = p.has_will;
      } in
      if p.has_will
      then record t {
        will_topic = assigned env.max_topic_len s.will_topic p.will_topic;
        will_payload = assigned env.max_payload_len s.will_payload p.will_payload;
        will_qos = p.will_qos;
        will_retain = p.will_retain;
      }
      else t

  unfoldable pub attach_conn : ConnectPacket → ℕ → Broker T A → Conn → Conn
  attach_conn p si b c =
      refresh_deadline env.traits b.now_ms
        (record c { session = si % 2 ^ 16; keepalive_s = p.keepalive_s })

  -- The part of `handle_connect` from the session on.
  unfoldable pub accept_connect : ConnectPacket → ℕ → A → ℕ → Bool → Broker T A → Broker T A
  accept_connect p ci ctx si session_present b =
      let b1 = modify_session si (connect_fields p ci ctx) b in
      let b2 = modify_conn ci (attach_conn p si b1) b1 in
      let b3 = elim (session_at si b2) as (λ _. Broker T A) [
        | none ↦ b2
        | some s ↦
            notify_session (if session_present then session_resumed else session_created) s b2
      ] in
      let b4 = send_to env ci (build_connack (out_cap env) session_present accepted) b3 in
      if session_present then resume_session env si b4 else b4

  -- A session that was not there before.
  unfoldable pub fresh_connect : ConnectPacket → ℕ → A → Bytes → Broker T A → Broker T A
  fresh_connect p ci ctx client_id b =
      let (found, b1) = claim_session b in
      elim found [
        | none ↦ refuse ci server_unavailable client_id b1
        | some si ↦ accept_connect p ci ctx si false (
            modify_session si
              (λ s. record s { client_id = assigned env.max_client_id_len s.client_id client_id })
              b1)
      ]

  -- After the authentication.
  unfoldable pub open_session : ConnectPacket → ℕ → A → Bytes → Broker T A → Broker T A
  open_session p ci ctx client_id b =
      let b1 = take_over client_id b in
      elim (find_client client_id b1) [
        | none ↦ fresh_connect p ci ctx client_id b1
        | some si ↦
            if p.clean_session
            then fresh_connect p ci ctx client_id (release_session si b1)
            else accept_connect p ci ctx si true b1
      ]

  abbrev pub optional : Bool → Bytes → Option Bytes
  optional given v = if given then some v else none

  unfoldable pub authenticate_connect : ConnectPacket → ℕ → Bytes → Broker T A → Broker T A
  authenticate_connect p ci client_id b =
      let (code, ctx) =
        env.authenticate client_id (optional p.has_username p.username)
          (optional p.has_password p.password) in
      if not (connack_ok code)
      then refuse ci code client_id b
      else open_session p ci ctx client_id b

  unfoldable pub handle_connect : ℕ → Bytes → Broker T A → Broker T A
  handle_connect ci body b =
      if not ((conn_at ci b).session == no_session)
      then violation ci state b
      else elim (parse_connect body) [
        | Parsed.error e ↦ close_malformed ci b
        | Parsed.packet p ↦
            let (r, b1) = check_connect p b in
            elim r [
              | refused code id ↦ refuse ci code id b1
              | closed ↦ close_malformed ci b1
              | stuck ↦ hang b1
              | admitted id ↦ authenticate_connect p ci id b1
            ]
      ]
