-- ===== src/Broker/Routing.antt =====
-- include/minimosq/broker/broker.hpp: retained messages and the routing of a message to the sessions.
use minimosq_mqtt.Prelude.{
  ℕ, zero, suc, ◌+◌, ◌%◌, ◌^◌, Bool, true, false, not, ◌&&◌, ◌||◌, Option, none, some, List, [],
  ◌∷◌, ltb, ◌==◌, if◌then◌else◌, Bytes, length,
}
use minimosq_mqtt.Core.Span.{oversize}
use minimosq_mqtt.Core.Pool.{at}
use minimosq_mqtt.Protocol.Constants.{QoS, at_most_once, qos_code}
use minimosq_mqtt.Protocol.Packets.Parse.{is_qos_0}
use minimosq_mqtt.Protocol.Packets.Build.{build_publish}
use minimosq_mqtt.Topic.{topic_matches}
use minimosq_mqtt.Broker.Session.{Session, Subscription}
use minimosq_mqtt.Broker.Retained.{
  Entry, stored, dropped, stale_purged, set_retained, remove_retained,
}
use minimosq_mqtt.Broker.State.{
  Env, receive_denied, retained_store_failed, retained_stale_purged, Broker, session_at,
  modify_session, retained_limits,
}
use minimosq_mqtt.Broker.Notify.{notify_denied, notify_topic, notify_drop}
use minimosq_mqtt.Broker.Send.{conn_index, is_online, try_send_to, send_to}
use minimosq_mqtt.Broker.Delivery.{out_cap, enqueue}

abbrev pub qos_min : QoS → QoS → QoS
qos_min a b = if ltb (qos_code a) (qos_code b) then a else b

abbrev pub qos_max : QoS → QoS → QoS
qos_max a b = if ltb (qos_code b) (qos_code a) then a else b

-- The loop over the subscriptions: `none` is `!matched`, else the highest granted QoS. The flag says
-- whether only the subscriptions that wait for retained messages count.
unfoldable pub granted_max : Bool → Bytes → List Subscription → Option QoS → Option QoS
granted_max pending_only topic [] acc = acc
granted_max pending_only topic (sub ∷ subs) acc = granted_max pending_only topic subs (
    if (not pending_only || sub.retain_pending) && topic_matches sub.filter topic
    then some (elim acc as (λ _. QoS) [
      | none ↦ qos_max at_most_once sub.granted
      | some q ↦ qos_max q sub.granted
    ])
    else acc)

abbrev pub clear_pending : List Subscription → List Subscription
clear_pending [] = []
clear_pending (sub ∷ subs) = record sub { retain_pending = false } ∷ clear_pending subs

unfoldable pub any_pending : List Subscription → Bool
any_pending [] = false
any_pending (sub ∷ subs) = if sub.retain_pending then true else any_pending subs

module _ {T A : Type 0} where
  -- `for_each` with a body that changes the broker: the slots in order, those live when they are visited.
  unfoldable pub each_session :
      (ℕ → Session A → Broker T A → Broker T A) → ℕ → ℕ → Broker T A → Broker T A
  each_session body zero si b = b
  each_session body (suc n) si b =
      each_session body n (suc si) (elim (session_at si b) [ none ↦ b | some s ↦ body si s b ])

  unfoldable pub for_each_session :
      (ℕ → Session A → Broker T A → Broker T A) → Broker T A → Broker T A
  for_each_session body b = each_session body (length b.sessions.slots) 0 b

module _ {T A : Type 0} (env : Env T A) where
  -- `false` is "the new value was not stored".
  unfoldable pub apply_retain : Bytes → Bytes → QoS → Broker T A → Bool × Broker T A
  apply_retain topic payload qos b =
      if length payload == 0
      then (true, record b { retained = remove_retained topic b.retained })
      else (let (st, r) = set_retained (retained_limits env.traits) topic payload qos b.retained in
          let b1 = record b { retained = r } in
          elim st [
            | stored ↦ (true, b1)
            | dropped ↦ (false, notify_topic retained_store_failed topic b1)
            | stale_purged ↦ (
              false,
              notify_topic retained_store_failed topic
                  (notify_topic retained_stale_purged topic b1),
            )
          ])

  -- A message for a session that has matched and is cleared, at the effective QoS.
  unfoldable pub deliver_to : Bytes → Bytes → QoS → ℕ → Session A → Broker T A → Broker T A
  deliver_to topic payload eff si s b =
      if is_qos_0 eff
      then if is_online env s b
        then send_to env (conn_index env s)
            (build_publish (out_cap env) topic payload at_most_once false false 0) b
        else b
      else if is_online env s b || not s.clean_session
      then enqueue env si s topic payload eff false b
      else b

  -- The body of the loop of `route_publish`.
  unfoldable pub route_to : Bytes → Bytes → QoS → ℕ → Session A → Broker T A → Broker T A
  route_to topic payload qos si s b = elim (granted_max false topic s.subs none) [
    | none ↦ b
    | some granted ↦
        if not (env.authorize_receive s.auth_ctx topic)
        then notify_denied receive_denied s topic b
        else deliver_to topic payload (qos_min qos granted) si s b
  ]

  unfoldable pub route_publish : Bytes → Bytes → QoS → Broker T A → Broker T A
  route_publish topic payload qos b = for_each_session (route_to topic payload qos) b

  -- A retained message for a grant: whether the replay has to pause, and the broker.
  unfoldable pub replay_entry : ℕ → ℕ → Session A → Entry → Broker T A → Bool × Broker T A
  replay_entry ci si s e b = elim (granted_max true e.topic s.subs none) [
    | none ↦ (false, b)
    | some granted ↦
        if not (env.authorize_receive s.auth_ctx e.topic)
        then (false, notify_denied receive_denied s e.topic b)
        else if not (is_qos_0 (qos_min granted e.qos))
        then (false, enqueue env si s e.topic e.payload (qos_min granted e.qos) true b)
        else (let pkt = build_publish (out_cap env) e.topic e.payload at_most_once true false 0 in
            if length pkt == 0
            then (false, notify_drop s e.topic at_most_once oversize b)
            else let (sent, b1) = try_send_to env ci pkt b in (not sent, b1))
  ]

  -- The loop of `replay_retained` over the slots of the store; `index` counts the live entries visited.
  -- The answer is whether the replay paused.
  unfoldable pub replay_loop : ℕ → ℕ → ℕ → ℕ → ℕ → Broker T A → Bool × Broker T A
  replay_loop zero slot index ci si b = (false, b)
  replay_loop (suc n) slot index ci si b = elim (at slot b.retained) [
    | none ↦ replay_loop n (suc slot) index ci si b
    | some e ↦ elim (session_at si b) [
      | none ↦ (false, b)
      | some s ↦ elim (ltb index s.retain_cursor) [
        | true ↦ replay_loop n (suc slot) ((index + 1) % 2 ^ 16) ci si b
        | false ↦
            let (paused, b1) = replay_entry ci si s e b in
            elim paused [
              | true ↦ (true, modify_session si (λ t. record t { retain_cursor = index }) b1)
              | false ↦ replay_loop n (suc slot) ((index + 1) % 2 ^ 16) ci si b1
            ]
      ]
    ]
  ]

  unfoldable pub replay_retained : ℕ → ℕ → Broker T A → Broker T A
  replay_retained ci si b =
      let (paused, b1) = replay_loop (length b.retained.slots) 0 0 ci si b in
      if paused
      then b1
      else modify_session si (λ t. record t { retain_cursor = 0; subs = clear_pending t.subs }) b1

abbrev pub any_retain_pending {ℓ} : {A : Type ℓ} → Session A → Bool
any_retain_pending s = any_pending s.subs
