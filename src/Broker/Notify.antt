-- ===== src/Broker/Notify.antt =====
-- include/minimosq/broker/broker.hpp: the calls of the observer, one helper for each shape of event.
use minimosq_mqtt.Prelude.{ℕ, true, Option, none, some, [], ◌∷◌, ◌++◌, ltb, if◌then◌else◌, Bytes}
use minimosq_mqtt.Core.Span.{Err}
use minimosq_mqtt.Protocol.Constants.{QoS, ConnackCode}
use minimosq_mqtt.Broker.Session.{Session}
use minimosq_mqtt.Broker.State.{
  Env, Event, EventKind, protocol_violation, connect_refused, delivery_dropped, new_event, Broker,
  conn_at, modify_conn, session_of, is_connected,
}

-- The session's connection, as an event names it.
abbrev pub event_ci {ℓ} : {A : Type ℓ} → Session A → Option ℕ
event_ci s = if is_connected s then some s.conn else none

module _ {T A : Type 0} where
  unfoldable pub on_event : Event → Broker T A → Broker T A
  on_event e b = record b { events = b.events ++ e ∷ [] }

  -- The client id of a connection that has got as far as having a session.
  unfoldable pub conn_client_id : ℕ → Broker T A → Bytes
  conn_client_id ci b = elim (session_of (conn_at ci b) b) [ none ↦ [] | some s ↦ s.client_id ]

  unfoldable pub notify_conn : Env T A → EventKind → ℕ → Broker T A → Broker T A
  notify_conn env kind ci b =
      on_event
        (record (new_event kind) {
          ci = some ci;
          client_id = if ltb ci env.max_connections then conn_client_id ci b else [];
        })
        b

  unfoldable pub notify_violation : ℕ → Err → Broker T A → Broker T A
  notify_violation ci err b =
      on_event
        (record (new_event protocol_violation) {
          ci = some ci;
          err = err;
          client_id = conn_client_id ci b;
        })
        b

  unfoldable pub mark_dead : ℕ → Broker T A → Broker T A
  mark_dead ci b = modify_conn ci (λ c. record c { dead = true }) b

  unfoldable pub violation : ℕ → Err → Broker T A → Broker T A
  violation ci err b = mark_dead ci (notify_violation ci err b)

  unfoldable pub notify_refused : ℕ → Bytes → ConnackCode → Broker T A → Broker T A
  notify_refused ci client_id code b =
      on_event
        (record (new_event connect_refused) { ci = some ci; client_id = client_id; connack = code })
        b

  unfoldable pub notify_session : EventKind → Session A → Broker T A → Broker T A
  notify_session kind s b =
      on_event (record (new_event kind) { ci = event_ci s; client_id = s.client_id }) b

  unfoldable pub notify_denied : EventKind → Session A → Bytes → Broker T A → Broker T A
  notify_denied kind s topic b =
      on_event (record (new_event kind) { ci = event_ci s; client_id = s.client_id; topic = topic })
        b

  unfoldable pub notify_topic : EventKind → Bytes → Broker T A → Broker T A
  notify_topic kind topic b = on_event (record (new_event kind) { topic = topic }) b

  unfoldable pub notify_drop : Session A → Bytes → QoS → Err → Broker T A → Broker T A
  notify_drop s topic qos err b =
      on_event
        (record (new_event delivery_dropped) {
          ci = event_ci s;
          client_id = s.client_id;
          topic = topic;
          qos = qos;
          err = err;
        })
        b
