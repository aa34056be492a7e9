-- ===== src/Broker/Acks.antt =====
-- include/minimosq/broker/broker.hpp: the handlers of PUBLISH, of its acknowledgements and of DISCONNECT. The
-- session of the connection is `si`, found by the dispatch.
pub mod Redelivery
use minimosq_mqtt.Prelude.{
  ℕ, Bool, true, false, not, none, some, List, ltb, ◌==◌, if◌then◌else◌, Bytes, length, get_elem?,
}
use minimosq_mqtt.Core.Span.{malformed, oversize}
use minimosq_mqtt.Core.StaticVector.{push_back, remove_ordered}
use minimosq_mqtt.Protocol.Constants.{
  QoS, at_most_once, at_least_once, exactly_once, puback, pubrec, pubrel, pubcomp,
}
use minimosq_mqtt.Protocol.Packets.Parse
use minimosq_mqtt.Protocol.Packets.Parse.{
  Parsed, PublishPacket, parse_publish, parse_packet_id_only,
}
use minimosq_mqtt.Protocol.Packets.Build.{build_packet_id_only}
use minimosq_mqtt.Topic.{topic_name_valid}
use minimosq_mqtt.Broker.Session.{
  Session, OutState, awaiting_puback, awaiting_pubrec, awaiting_pubcomp, find_pending,
  has_inbound_qos2, remove_inbound_qos2,
}
use minimosq_mqtt.Broker.State.{Env, inbound_qos2_evicted, publish_denied, Broker, modify_session}
use minimosq_mqtt.Broker.Notify.{notify_conn, notify_denied, notify_violation, violation, mark_dead}
use minimosq_mqtt.Broker.Send.{send_to}
use minimosq_mqtt.Broker.Delivery.{out_cap, set_msg, drop_msg}
use minimosq_mqtt.Broker.Routing.{apply_retain, route_publish}

abbrev pub is_exactly_once : QoS → Bool
is_exactly_once exactly_once = true
is_exactly_once _ = false

abbrev pub is_full : ℕ → List ℕ → Bool
is_full capacity xs = length xs == capacity

abbrev pub pushed : ℕ → List ℕ → ℕ → List ℕ
pushed capacity xs v = elim (push_back capacity xs v) [ none ↦ xs | some ys ↦ ys ]

module _ {T A : Type 0} (env : Env T A) where
  -- The identifier of a QoS 2 PUBLISH: whether the message still has to be delivered. A full table
  -- forgets its oldest identifier.
  unfoldable pub track_qos2 : ℕ → ℕ → Session A → ℕ → Broker T A → Bool × Broker T A
  track_qos2 ci si s id b =
      if has_inbound_qos2 id s.inbound_qos2
      then (false, b)
      else if is_full env.max_inbound_qos2 s.inbound_qos2
      then (
        true,
        modify_session si
            (λ t. record t {
              inbound_qos2 = pushed env.max_inbound_qos2 (remove_ordered 0 t.inbound_qos2) id;
            })
            (notify_conn env inbound_qos2_evicted ci b),
      )
      else (
        true,
        modify_session si
            (λ t. record t { inbound_qos2 = pushed env.max_inbound_qos2 t.inbound_qos2 id }) b,
      )

  -- A message that is cleared and not a redelivery.
  unfoldable pub forward : Session A → PublishPacket → Broker T A → Broker T A
  forward s p b =
      if not (env.authorize_publish s.auth_ctx p.topic)
      then notify_denied publish_denied s p.topic b
      else (let b1 = if p.retain then (apply_retain env p.topic p.payload p.qos b).1 else b in
          route_publish env p.topic p.payload p.qos b1)

  unfoldable pub acknowledge : ℕ → PublishPacket → Broker T A → Broker T A
  acknowledge ci p b = elim p.qos [
    | at_most_once ↦ b
    | at_least_once ↦ send_to env ci (build_packet_id_only (out_cap env) puback p.packet_id) b
    | exactly_once ↦ send_to env ci (build_packet_id_only (out_cap env) pubrec p.packet_id) b
  ]

  -- `handle_publish` behind the guards on the packet.
  unfoldable pub accept_publish : ℕ → ℕ → Session A → PublishPacket → Broker T A → Broker T A
  accept_publish ci si s p b =
      let (deliver, b1) =
        if is_exactly_once p.qos then track_qos2 ci si s p.packet_id b else (true, b) in
      let b2 = if deliver then forward s p b1 else b1 in acknowledge ci p b2

  unfoldable pub handle_publish : ℕ → ℕ → Session A → ℕ → Bytes → Broker T A → Broker T A
  handle_publish ci si s first_byte body b = elim (parse_publish first_byte body) [
    | Parsed.error e ↦ mark_dead ci (notify_violation ci malformed b)
    | Parsed.packet p ↦
        if not (topic_name_valid p.topic)
        then mark_dead ci (notify_violation ci malformed b)
        else if ltb env.max_topic_len (length p.topic)
        then mark_dead ci (notify_violation ci oversize b)
        else accept_publish ci si s p b
  ]

module _ {T A : Type 0} where
  -- The acknowledgement that ends a delivery: PUBACK and PUBCOMP.
  unfoldable pub complete : OutState → ℕ → Session A → ℕ → Broker T A → Broker T A
  complete state si s id b = elim (find_pending id state state s.pending) [
    | none ↦ b
    | some index ↦ drop_msg si index b
  ]

  -- `m->state = awaiting_pubcomp`
  unfoldable pub await_pubcomp : ℕ → Session A → ℕ → Broker T A → Broker T A
  await_pubcomp si s index b = elim (get_elem? s.pending index) [
    | none ↦ b
    | some m ↦ set_msg si index (record m { state = awaiting_pubcomp }) b
  ]

  unfoldable pub handle_puback : ℕ → ℕ → Session A → Bytes → Broker T A → Broker T A
  handle_puback ci si s body b = elim (parse_packet_id_only body) [
    | Parsed.error e ↦ violation ci malformed b
    | Parsed.packet id ↦ complete awaiting_puback si s id b
  ]

  unfoldable pub handle_pubcomp : ℕ → ℕ → Session A → Bytes → Broker T A → Broker T A
  handle_pubcomp ci si s body b = elim (parse_packet_id_only body) [
    | Parsed.error e ↦ violation ci malformed b
    | Parsed.packet id ↦ complete awaiting_pubcomp si s id b
  ]

  unfoldable pub handle_disconnect : ℕ → ℕ → Bytes → Broker T A → Broker T A
  handle_disconnect ci si body b =
      if not (length body == 0)
      then violation ci malformed b
      else mark_dead ci (modify_session si (λ s. record s { has_will = false }) b)

module _ {T A : Type 0} (env : Env T A) where
  unfoldable pub handle_pubrec : ℕ → ℕ → Session A → Bytes → Broker T A → Broker T A
  handle_pubrec ci si s body b = elim (parse_packet_id_only body) [
    | Parsed.error e ↦ violation ci malformed b
    | Parsed.packet id ↦ elim (find_pending id awaiting_pubrec awaiting_pubcomp s.pending) [
      | none ↦ b
      | some index ↦
          send_to env ci (build_packet_id_only (out_cap env) pubrel id) (await_pubcomp si s index b)
    ]
  ]

  unfoldable pub handle_pubrel : ℕ → ℕ → Bytes → Broker T A → Broker T A
  handle_pubrel ci si body b = elim (parse_packet_id_only body) [
    | Parsed.error e ↦ violation ci malformed b
    | Parsed.packet id ↦ send_to env ci (build_packet_id_only (out_cap env) pubcomp id) (
        modify_session si (λ s. record s { inbound_qos2 = remove_inbound_qos2 id s.inbound_qos2 })
          b)
  ]
