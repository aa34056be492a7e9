-- ===== src/Broker/Subscribe.antt =====
-- include/minimosq/broker/broker.hpp: SUBSCRIBE and UNSUBSCRIBE. `entries` gives what draining a parser
-- of the body yields, so a second pass over the body yields the same.
pub mod Atomic
use minimosq_mqtt.Prelude.{
  ℕ, ◌-◌, Bool, true, false, not, Option, none, some, List, [], ◌∷◌, ltb, if◌then◌else◌, Bytes,
  length, set, get_elem?,
}
use minimosq_mqtt.Core.Span.{Err, is_ok, malformed, oversize}
use minimosq_mqtt.Core.StaticVector.{push_back, remove_ordered, assigned}
use minimosq_mqtt.Protocol.Constants.{
  QoS, at_most_once, qos_code, suback, unsuback, suback_failure, make_first_byte,
}
use minimosq_mqtt.Protocol.Writer
use minimosq_mqtt.Protocol.Writer.{Writer, writer}
use minimosq_mqtt.Protocol.Packets.Build.{packet_overhead, frame_packet, build_packet_id_only}
use minimosq_mqtt.Protocol.Packets.TopicList.{entries}
use minimosq_mqtt.Topic.{topic_filter_valid}
use minimosq_mqtt.Broker.Session.{Subscription, find_sub}
use minimosq_mqtt.Broker.State.{Traits, Env, subscribe_denied, Broker, session_at, modify_session}
use minimosq_mqtt.Broker.Notify.{notify_denied, notify_violation, violation, mark_dead}
use minimosq_mqtt.Broker.Send.{send_to}
use minimosq_mqtt.Broker.Delivery.{out_cap}
use minimosq_mqtt.Broker.Routing.{any_pending, clear_pending, replay_retained}

-- Pass 1: `none` when every entry is valid and the list is well-formed, else the error. The first
-- filter that is ill-formed ends the loop, before the status is looked at.
unfoldable pub first_bad : List (Bytes × QoS) → Err → Option Err
first_bad [] status = if is_ok status then none else some status
first_bad ((filter, qos) ∷ es) status =
    if not (topic_filter_valid filter) then some malformed else first_bad es status

unfoldable pub check_entries : Bytes → Bool → Option Err
check_entries body with_qos = let (es, p) = entries body with_qos in first_bad es p.status

-- Where `subscribe_one` puts the subscription: the table and its index; `none` is `suback_failure`.
unfoldable pub find_or_add : Traits → Bytes → List Subscription → Option (ℕ × List Subscription)
find_or_add t filter subs = elim (find_sub filter subs) [
  | some i ↦ some (i, subs)
  | none ↦
      elim (push_back t.max_subscriptions_per_session subs (record {
        filter = assigned t.max_topic_len [] filter;
        granted = at_most_once;
        retain_pending = false;
      })) [ none ↦ none | some more ↦ some (length subs, more) ]
]

-- `subscribe_one` and the mark for pass 3.
unfoldable pub grant : QoS → ℕ → List Subscription → List Subscription
grant requested i subs = elim (get_elem? subs i) [
  | none ↦ subs
  | some sub ↦ set subs i (record sub { granted = requested; retain_pending = true })
]

unfoldable pub subscribe_one : Traits → Bytes → QoS → List Subscription → ℕ × List Subscription
subscribe_one t filter requested subs =
    if ltb t.max_topic_len (length filter)
    then (suback_failure, subs)
    else elim (find_or_add t filter subs) [
      | none ↦ (suback_failure, subs)
      | some (i, more) ↦ (qos_code requested, grant requested i more)
    ]

-- The loop of `handle_unsubscribe` for one filter: an exact match, at most one.
unfoldable pub remove_sub : Bytes → List Subscription → List Subscription
remove_sub filter subs = elim (find_sub filter subs) [
  | none ↦ subs
  | some i ↦ remove_ordered i subs
]

unfoldable pub remove_subs : List (Bytes × QoS) → List Subscription → List Subscription
remove_subs [] subs = subs
remove_subs ((filter, ignored) ∷ es) subs = remove_subs es (remove_sub filter subs)

module _ {T A : Type 0} (env : Env T A) where
  -- One entry of pass 2: the return code goes to the writer.
  unfoldable pub apply_entry : ℕ → Bytes → QoS → Writer × Broker T A → Writer × Broker T A
  apply_entry si filter requested (w, b) = elim (session_at si b) [
    | none ↦ (w, b)
    | some s ↦
        if not (env.authorize_subscribe s.auth_ctx filter)
        then (Writer.u8 suback_failure w, notify_denied subscribe_denied s filter b)
        else (let (code, subs) = subscribe_one env.traits filter requested s.subs in
            (Writer.u8 code w, modify_session si (λ t. record t { subs = subs }) b))
  ]

  unfoldable pub apply_entries : ℕ → List (Bytes × QoS) → Writer × Broker T A → Writer × Broker T A
  apply_entries si [] wb = wb
  apply_entries si ((filter, requested) ∷ es) wb =
      apply_entries si es (apply_entry si filter requested wb)

  -- Pass 3, for a session that holds a grant of this packet.
  unfoldable pub start_replay : ℕ → ℕ → Broker T A → Broker T A
  start_replay ci si b = elim (session_at si b) [
    | none ↦ b
    | some s ↦
        if any_pending s.subs
        then replay_retained env ci si (modify_session si (λ t. record t { retain_cursor = 0 }) b)
        else b
  ]

  -- Passes 2 and 3.
  unfoldable pub apply_subscribe : ℕ → ℕ → Bytes → Broker T A → Broker T A
  apply_subscribe ci si body b =
      let b1 = modify_session si (λ s. record s { subs = clear_pending s.subs }) b in
      let (es, last) = entries body true in
      let w0 = Writer.u16 last.packet_id (writer (out_cap env - packet_overhead)) in
      let (w, b2) = apply_entries si es (w0, b1) in
      if not w.ok
      then mark_dead ci (notify_violation ci oversize b2)
      else start_replay ci si (send_to env ci (frame_packet (make_first_byte suback 0) w.out) b2)

  unfoldable pub handle_subscribe : ℕ → ℕ → Bytes → Broker T A → Broker T A
  handle_subscribe ci si body b = elim (check_entries body true) [
    | some err ↦ mark_dead ci (notify_violation ci err b)
    | none ↦ apply_subscribe ci si body b
  ]

  unfoldable pub handle_unsubscribe : ℕ → ℕ → Bytes → Broker T A → Broker T A
  handle_unsubscribe ci si body b = elim (check_entries body false) [
    | some err ↦ violation ci err b
    | none ↦
        let (es, last) = entries body false in
        send_to env ci (build_packet_id_only (out_cap env) unsuback last.packet_id)
          (modify_session si (λ s. record s { subs = remove_subs es s.subs }) b)
  ]
