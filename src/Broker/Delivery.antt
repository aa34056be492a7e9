-- ===== src/Broker/Delivery.antt =====
-- include/minimosq/broker/broker.hpp: the outbound queue of a session.
use minimosq_mqtt.Prelude.{
  ℕ, zero, suc, Bool, true, false, not, ◌&&◌, Option, none, some, [], ltb, ◌==◌, if◌then◌else◌,
  Bytes, length, set, get_elem?,
}
use minimosq_mqtt.Core.Span.{oversize, capacity}
use minimosq_mqtt.Core.StaticVector.{push_back, remove_ordered, assigned}
use minimosq_mqtt.Protocol.Constants.{QoS, at_least_once, pubrel}
use minimosq_mqtt.Protocol.Packets.Build.{build_publish, build_packet_id_only}
use minimosq_mqtt.Broker.Session.{
  Session, OutMsg, OutState, queued, awaiting_puback, awaiting_pubrec, awaiting_pubcomp, state_eq,
  alloc_packet_id,
}
use minimosq_mqtt.Broker.State.{Env, Broker, hang, session_at, modify_session, out_size}
use minimosq_mqtt.Broker.Notify.{notify_drop}
use minimosq_mqtt.Broker.Send.{conn_index, is_online, try_send_to}

-- A default-constructed message.
abbrev pub new_out_msg : OutMsg
new_out_msg = record {
  topic = [];
  payload = [];
  packet_id = 0;
  qos = at_least_once;
  state = queued;
  retain = false;
  dup = false;
  resend_pubrel = false;
}

abbrev pub is_at_least_once : QoS → Bool
is_at_least_once at_least_once = true
is_at_least_once _ = false

-- The state of a message once its PUBLISH is away.
abbrev pub sent_state : QoS → OutState
sent_state q = if is_at_least_once q then awaiting_puback else awaiting_pubrec

-- How a round of `pump_session` or `resume_session` ends: `++i`, the same index again after a removal,
-- or `return`.
pub data Turn {ℓ} (B : Type ℓ) : Type ℓ where
  advance : B → Turn B
  again : B → Turn B
  leave : B → Turn B

module _ {T A : Type 0} where
  -- Writes through references into the queue.
  unfoldable pub set_msg : ℕ → ℕ → OutMsg → Broker T A → Broker T A
  set_msg si i m b = modify_session si (λ s. record s { pending = set s.pending i m }) b

  unfoldable pub drop_msg : ℕ → ℕ → Broker T A → Broker T A
  drop_msg si i b = modify_session si (λ s. record s { pending = remove_ordered i s.pending }) b

  -- `alloc_packet_id`, with the identifier written back.
  unfoldable pub with_packet_id : ℕ → Session A → Broker T A → Option (ℕ × Broker T A)
  with_packet_id si s b = elim (alloc_packet_id s) [
    | none ↦ none
    | some (id, s') ↦
        some (id, modify_session si (λ t. record t { last_packet_id = s'.last_packet_id }) b)
  ]

  -- `while (i < s.pending.size())`. A round advances or removes a message, so the rounds left are the
  -- messages from the index on.
  unfoldable pub queue_loop :
      (ℕ → ℕ → Session A → OutMsg → Broker T A → Turn (Broker T A))
      → ℕ
      → ℕ
      → ℕ
      → Broker T A
      → Broker T A
  queue_loop turn zero si i b = b
  queue_loop turn (suc n) si i b = elim (session_at si b) [
    | none ↦ b
    | some s ↦ elim (get_elem? s.pending i) [
      | none ↦ b
      | some m ↦ elim (turn si i s m b) [
        | advance b1 ↦ queue_loop turn n si (suc i) b1
        | again b1 ↦ queue_loop turn n si i b1
        | leave b1 ↦ b1
      ]
    ]
  ]

  unfoldable pub queue_length : ℕ → Broker T A → ℕ
  queue_length si b = elim (session_at si b) [ none ↦ 0 | some s ↦ length s.pending ]

module _ {T A : Type 0} (env : Env T A) where
  abbrev pub out_cap : ℕ
  out_cap = out_size env.traits

  unfoldable pub publish_of : OutMsg → Bool → ℕ → Bytes
  publish_of m dup id = build_publish out_cap m.topic m.payload m.qos m.retain dup id

  unfoldable pub pubrel_of : OutMsg → Bytes
  pubrel_of m = build_packet_id_only out_cap pubrel m.packet_id

  -- A PUBREL that the transport refused goes out again.
  unfoldable pub resend_pubrel : ℕ → ℕ → Session A → OutMsg → Broker T A → Turn (Broker T A)
  resend_pubrel si i s m b =
      let (sent, b1) = try_send_to env (conn_index env s) (pubrel_of m) b in
      if not sent then leave b1 else advance (set_msg si i (record m { resend_pubrel = false }) b1)

  -- A PUBLISH that cannot be built is reported and removed; one that the transport refuses stays.
  unfoldable pub publish_msg :
      ℕ → ℕ → Session A → OutMsg → Bytes → OutMsg → Broker T A → Turn (Broker T A)
  publish_msg si i s m pkt committed b =
      if length pkt == 0
      then again (drop_msg si i (notify_drop s m.topic m.qos oversize b))
      else let (sent, b1) = try_send_to env (conn_index env s) pkt b in
        if not sent then leave b1 else advance (set_msg si i committed b1)

  -- The first send of a queued message. Where the search for an identifier does not end, the broker hangs.
  unfoldable pub first_send : ℕ → ℕ → Session A → OutMsg → Broker T A → Turn (Broker T A)
  first_send si i s m b = elim (with_packet_id si s b) [
    | none ↦ leave (hang b)
    | some (id, b1) ↦
        publish_msg si i s m (publish_of m m.dup id)
          (record m { packet_id = id; state = sent_state m.qos }) b1
  ]

  unfoldable pub pump_turn : ℕ → ℕ → Session A → OutMsg → Broker T A → Turn (Broker T A)
  pump_turn si i s m b =
      if not (is_online env s b)
      then leave b
      else if state_eq m.state awaiting_pubcomp && m.resend_pubrel
      then resend_pubrel si i s m b
      else if not (state_eq m.state queued)
      then advance b
      else first_send si i s m b

  -- A message in flight is sent again with DUP set.
  unfoldable pub retransmit : ℕ → ℕ → Session A → OutMsg → Broker T A → Turn (Broker T A)
  retransmit si i s m b =
      publish_msg si i s m (publish_of m true m.packet_id) (record m { dup = true }) b

  unfoldable pub resume_pubrel : ℕ → ℕ → Session A → OutMsg → Broker T A → Turn (Broker T A)
  resume_pubrel si i s m b =
      let (sent, b1) = try_send_to env (conn_index env s) (pubrel_of m) b in
      if not sent
      then leave (set_msg si i (record m { resend_pubrel = true }) b1)
      else advance (set_msg si i (record m { resend_pubrel = false }) b1)

  unfoldable pub resume_turn : ℕ → ℕ → Session A → OutMsg → Broker T A → Turn (Broker T A)
  resume_turn si i s m b =
      if not (is_online env s b)
      then leave b
      else if state_eq m.state awaiting_pubcomp
      then resume_pubrel si i s m b
      else if state_eq m.state queued
      then first_send si i s m b
      else retransmit si i s m b

  unfoldable pub pump_session : ℕ → Broker T A → Broker T A
  pump_session si b = queue_loop pump_turn (queue_length si b) si 0 b

  unfoldable pub resume_session : ℕ → Broker T A → Broker T A
  resume_session si b = queue_loop resume_turn (queue_length si b) si 0 b

  -- The message that is queued.
  abbrev pub new_message : Bytes → Bytes → QoS → Bool → OutMsg
  new_message topic payload eff retain = record new_out_msg {
    topic = assigned env.max_topic_len [] topic;
    payload = assigned env.max_payload_len [] payload;
    qos = eff;
    retain = retain;
  }

  unfoldable pub enqueue : ℕ → Session A → Bytes → Bytes → QoS → Bool → Broker T A → Broker T A
  enqueue si s topic payload eff retain b =
      if ltb env.max_payload_len (length payload)
      then notify_drop s topic eff oversize b
      else elim (push_back env.max_pending_per_session s.pending
          (new_message topic payload eff retain)) [
            | none ↦ notify_drop s topic eff capacity b
            | some pending ↦
                let b1 = modify_session si (λ t. record t { pending = pending }) b in
                if is_online env s b1 then pump_session si b1 else b1
          ]
