-- ===== src/Broker/Teardown.antt =====
-- include/minimosq/broker/broker.hpp: the deferred teardown of connections and the lifetime of sessions.
pub mod Oldest
use minimosq_mqtt.Prelude.{
  ℕ, zero, suc, ◌+◌, ◌-◌, ◌%◌, ◌^◌, Bool, true, false, not, ◌&&◌, Option, none, some, List, [], ◌∷◌,
  leb, ◌==◌, if◌then◌else◌,
}
use minimosq_mqtt.Core.Pool.{release}
use minimosq_mqtt.Broker.Session.{Session, no_conn}
use minimosq_mqtt.Broker.State.{
  Env, connection_closed, session_expired, Conn, Broker, conn_at, modify_conn, modify_session,
  no_session, is_connected, session_of,
}
use minimosq_mqtt.Broker.Notify.{notify_conn, notify_session}
use minimosq_mqtt.Broker.Clock.{deadline_passed}
use minimosq_mqtt.Broker.Routing.{apply_retain, route_publish, for_each_session}

abbrev pub is_doomed : Conn → Bool
is_doomed c = c.active && c.dead

module _ {T A : Type 0} where
  unfoldable pub release_session : ℕ → Broker T A → Broker T A
  release_session si b = record b { sessions = release si b.sessions }

module _ {T A : Type 0} (env : Env T A) where
  -- "Detach first: nothing published below may reach this connection."
  unfoldable pub detach : ℕ → Broker T A → Broker T A
  detach ci b =
      modify_conn ci (λ c. record c { active = false; dead = false; session = no_session }) b

  -- The session notes when it lost its connection.
  unfoldable pub stamp : ℕ → Broker T A → Broker T A
  stamp si b =
      let order = (b.disconnect_order + 1) % 2 ^ 32 in
      modify_session si
        (λ s. record s { conn = no_conn; disconnect_ms = b.now_ms; disconnect_order = order })
        (record b { disconnect_order = order })

  -- The will goes the way of a client's PUBLISH.
  unfoldable pub publish_will : ℕ → Session A → Broker T A → Broker T A
  publish_will si s b =
      let b1 = modify_session si (λ t. record t { has_will = false }) b in
      if env.authorize_publish s.auth_ctx s.will_topic
      then (let b2 =
            if s.will_retain
            then (apply_retain env s.will_topic s.will_payload s.will_qos b1).1
            else b1 in
          route_publish env s.will_topic s.will_payload s.will_qos b2)
      else b1

  -- What teardown does to the session of the connection.
  unfoldable pub leave_session : ℕ → Session A → Broker T A → Broker T A
  leave_session si s b =
      let b1 = stamp si b in
      let b2 = if s.has_will then publish_will si s b1 else b1 in
      if s.clean_session then release_session si b2 else b2

  unfoldable pub leave_owner : Option (Session A) → ℕ → Broker T A → Broker T A
  leave_owner none si b = b
  leave_owner (some s) si b = leave_session si s b

  unfoldable pub close_transport : Bool → ℕ → Broker T A → Broker T A
  close_transport notify ci b = if notify then record b { tr = env.close b.tr ci } else b

  unfoldable pub teardown : ℕ → Broker T A → Broker T A
  teardown ci b =
      let c = conn_at ci b in
      close_transport c.notify_transport ci (
        leave_owner (session_of c b) c.session (detach ci (notify_conn env connection_closed ci b)))

  -- The `for` of `flush_dead`; the flag is `again`.
  unfoldable pub flush_sweep : ℕ → ℕ → Bool → Broker T A → Bool × Broker T A
  flush_sweep zero ci again b = (again, b)
  flush_sweep (suc n) ci again b = elim (is_doomed (conn_at ci b)) [
    | true ↦ flush_sweep n (suc ci) true (teardown ci b)
    | false ↦ flush_sweep n (suc ci) again b
  ]

  -- The `while (again)`, on fuel.
  unfoldable pub flush_loop : ℕ → Broker T A → Broker T A
  flush_loop zero b = b
  flush_loop (suc fuel) b =
      let (again, b1) = flush_sweep env.max_connections 0 false b in
      elim again [ true ↦ flush_loop fuel b1 | false ↦ b1 ]

  -- A sweep that goes round again has closed a connection, and none opens meanwhile.
  unfoldable pub flush_dead : Broker T A → Broker T A
  flush_dead b = flush_loop (suc env.max_connections) b

  abbrev pub is_expired : ℕ → Session A → Bool
  is_expired now_ms s =
      not (is_connected s)
      && deadline_passed now_ms ((s.disconnect_ms + env.session_expiry_ms) % 2 ^ 32)

  unfoldable pub expire_sessions : ℕ → Broker T A → Broker T A
  expire_sessions now_ms b =
      if env.session_expiry_ms == 0
      then b
      else for_each_session
          (λ si s b1.
            if is_expired now_ms s
            then release_session si (notify_session session_expired s b1)
            else b1)
          b

-- `static_cast<int32_t>(a - b) < 0`
abbrev pub is_earlier : ℕ → ℕ → Bool
is_earlier a b = leb (2 ^ 31) ((a + 2 ^ 32 - b) % 2 ^ 32)

-- One visit of the loop of `oldest_disconnected_session`.
abbrev pub older {ℓ} :
    {A : Type ℓ} → ℕ → Session A → Option (ℕ × Session A) → Option (ℕ × Session A)
older si s none = if is_connected s then none else some (si, s)
older si s (some (sj, t)) =
    if is_connected s
    then some (sj, t)
    else if is_earlier s.disconnect_order t.disconnect_order
    then some (si, s)
    else some (sj, t)

-- The loop, over the slots from an index on.
unfoldable pub oldest_from {ℓ} :
    {A : Type ℓ} → ℕ → List (Option (Session A)) → Option (ℕ × Session A) → Option (ℕ × Session A)
oldest_from si [] oldest = oldest
oldest_from si (none ∷ slots) oldest = oldest_from (suc si) slots oldest
oldest_from si (some s ∷ slots) oldest = oldest_from (suc si) slots (older si s oldest)

unfoldable pub oldest_disconnected_session : {T A : Type 0} → Broker T A → Option (ℕ × Session A)
oldest_disconnected_session b = oldest_from 0 b.sessions.slots none
