-- ===== src/Broker/Stable.antt =====
-- What the quiet operations keep: reports, sends, the queues, routing and replay. A property of the broker
-- that survives the few ways in which they write survives all of them.
pub mod Queue
pub mod Route
pub mod Handlers
pub mod Sessions
use minimosq_mqtt.Prelude.{
  ℕ, ◌-◌, ◌*◌, ◌^◌, ◌≤◌, ◌<◌, ◌≡◌, refl, arith, none, some, List, Bytes, set, length, length-set,
}
use minimosq_mqtt.Core.Span.{Err}
use minimosq_mqtt.Core.Pool.{Pool}
use minimosq_mqtt.Core.StaticVector.{remove_ordered, push_back, length-remove_ordered-le}
use minimosq_mqtt.Protocol.Constants.{QoS, ConnackCode}
use minimosq_mqtt.Broker.Session.{Session, OutMsg, alloc_packet_id}
use minimosq_mqtt.Broker.Retained.{Entry}
use minimosq_mqtt.Broker.State.{Env, Event, EventKind, Broker, modify_session, session_at, hang}
use minimosq_mqtt.Broker.Notify.{
  mark_dead, on_event, notify_conn, notify_violation, violation, notify_refused, notify_session,
  notify_denied, notify_topic, notify_drop,
}
use minimosq_mqtt.Broker.Send.{transport_send, try_send_to, send_to}
use minimosq_mqtt.Broker.Delivery.{set_msg, drop_msg}

-- What other parts of the broker see of a session: its client id and its connection.
abbrev pub session_link {ℓ} : {A : Type ℓ} → Session A → Bytes × ℕ
session_link s = (s.client_id, s.conn)

-- A write to a session that keeps the last packet identifier and adds nothing to the queue.
abbrev pub KeepsQueue {ℓ} : {A : Type ℓ} → (Session A → Session A) → Type ℓ
KeepsQueue {A} f =
    (s : Session A)
    → (length (f s).pending ≤ length s.pending) × ((f s).last_packet_id ≡ s.last_packet_id)

-- A write to a session that keeps its link.
abbrev pub KeepsLink {ℓ} : {A : Type ℓ} → (Session A → Session A) → Type ℓ
KeepsLink {A} f = (s : Session A) → session_link (f s) ≡ session_link s

module _ {T A : Type 0} where
  -- A property that survives reports, sends, writes to the retained store and writes that keep links.
  pub record Quiet (env : Env T A) (P : Broker T A → Type 0) : Type 0 where
    pub event : (e : Event) (b : Broker T A) → P b → P (on_event e b)
    pub sent : (ci : ℕ) (pkt : Bytes) (b : Broker T A) → P b → P (transport_send env ci pkt b).1
    pub kept : (r : Pool Entry) (b : Broker T A) → P b → P (record b { retained = r })
    pub written :
        (si : ℕ) (f : Session A → Session A) (b : Broker T A)
        → KeepsLink f
        → KeepsQueue f
        → P b
        → P (modify_session si f b)
    pub identified :
        (si id : ℕ) (b : Broker T A)
        → id < 2 ^ 16
        → P b
        → P (modify_session si (λ t. record t { last_packet_id = id }) b)
    pub queued :
        (si : ℕ) (s : Session A) (m : OutMsg) (ms : List OutMsg) (b : Broker T A)
        → session_at si b ≡ some s
        → push_back env.max_pending_per_session s.pending m ≡ some ms
        → P b
        → P (modify_session si (λ t. record t { pending = ms }) b)
    pub searched :
        (si : ℕ) (s : Session A) (b : Broker T A)
        → session_at si b ≡ some s
        → alloc_packet_id s ≡ none
        → P b
        → P (hang b)

  -- And that survives the mark for teardown as well.
  pub record Stable (env : Env T A) (P : Broker T A → Type 0) : Type 0 where
    pub quiet : Quiet env P
    pub open quiet use *
    pub killed : (ci : ℕ) (b : Broker T A) → P b → P (mark_dead ci b)

module _ {T A : Type 0} (env : Env T A) (P : Broker T A → Type 0) (v : Quiet env P) where
  pub notify_conn-Quiet :
      (k : EventKind) (ci : ℕ) (b : Broker T A) → P b → P (notify_conn env k ci b)
  unfolding notify_conn
  notify_conn-Quiet k ci b = v.event _ b

  pub notify_violation-Quiet :
      (ci : ℕ) (e : Err) (b : Broker T A) → P b → P (notify_violation ci e b)
  unfolding notify_violation
  notify_violation-Quiet ci e b = v.event _ b

  pub notify_refused-Quiet :
      (ci : ℕ) (id : Bytes) (code : ConnackCode) (b : Broker T A)
      → P b
      → P (notify_refused ci id code b)
  unfolding notify_refused
  notify_refused-Quiet ci id code b = v.event _ b

  pub notify_session-Quiet :
      (k : EventKind) (s : Session A) (b : Broker T A) → P b → P (notify_session k s b)
  unfolding notify_session
  notify_session-Quiet k s b = v.event _ b

  pub notify_denied-Quiet :
      (k : EventKind) (s : Session A) (t : Bytes) (b : Broker T A) → P b → P (notify_denied k s t b)
  unfolding notify_denied
  notify_denied-Quiet k s t b = v.event _ b

  pub notify_topic-Quiet :
      (k : EventKind) (t : Bytes) (b : Broker T A) → P b → P (notify_topic k t b)
  unfolding notify_topic
  notify_topic-Quiet k t b = v.event _ b

  pub notify_drop-Quiet :
      (s : Session A) (t : Bytes) (q : QoS) (e : Err) (b : Broker T A)
      → P b
      → P (notify_drop s t q e b)
  unfolding notify_drop
  notify_drop-Quiet s t q e b = v.event _ b

  pub set_msg-Quiet : (si i : ℕ) (m : OutMsg) (b : Broker T A) → P b → P (set_msg si i m b)
  unfolding set_msg
  set_msg-Quiet si i m b =
      v.written si (λ s. record s { pending = set s.pending i m }) b (λ s. refl)
        (λ s. (omega (arith, length-set s.pending i m), refl))

  pub drop_msg-Quiet : (si i : ℕ) (b : Broker T A) → P b → P (drop_msg si i b)
  unfolding drop_msg
  drop_msg-Quiet si i b =
      v.written si (λ s. record s { pending = remove_ordered i s.pending }) b (λ s. refl)
        (λ s. (length-remove_ordered-le i s.pending, refl))

  pub transport_send-Quiet :
      (ci : ℕ) (pkt : Bytes) (b : Broker T A) → P b → P (transport_send env ci pkt b).1
  transport_send-Quiet ci pkt b = v.sent ci pkt b

  pub try_send_to-Quiet :
      (ci : ℕ) (pkt : Bytes) (b : Broker T A) → P b → P (try_send_to env ci pkt b).1
  unfolding try_send_to
  try_send_to-Quiet ci pkt b h = grind (arith, transport_send-Quiet)

module _ {T A : Type 0} (env : Env T A) (P : Broker T A → Type 0) (v : Stable env P) where
  pub violation-Stable : (ci : ℕ) (e : Err) (b : Broker T A) → P b → P (violation ci e b)
  unfolding violation
  violation-Stable ci e b h = v.killed ci _ (notify_violation-Quiet env P v.quiet ci e b h)

  pub send_to-Stable : (ci : ℕ) (pkt : Bytes) (b : Broker T A) → P b → P (send_to env ci pkt b)
  unfolding send_to
  send_to-Stable ci pkt b h =
      grind (arith, transport_send-Quiet env P v.quiet, v.killed, notify_conn-Quiet env P v.quiet)
