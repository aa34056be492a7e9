-- ===== src/Broker/Send.antt =====
-- include/minimosq/broker/broker.hpp: packets on their way to the transport.
use minimosq_mqtt.Prelude.{
  ℕ, Bool, true, false, not, ◌&&◌, ◌||◌, Option, none, some, ltb, ◌==◌, if◌then◌else◌, Bytes,
  length,
}
use minimosq_mqtt.Broker.Session.{Session}
use minimosq_mqtt.Broker.State.{Env, transport_send_failed, Conn, Broker, conn_at, is_connected}
use minimosq_mqtt.Broker.Notify.{notify_conn, mark_dead}

module _ {T A : Type 0} (env : Env T A) where
  -- `conn_index`: max_connections when the session has no connection.
  unfoldable pub conn_index : Session A → ℕ
  conn_index s =
      if is_connected s && ltb s.conn env.max_connections then s.conn else env.max_connections

  -- `conn_of_session`: `none` when the session is offline.
  unfoldable pub conn_of_session : Session A → Broker T A → Option Conn
  conn_of_session s b =
      if ltb (conn_index s) env.max_connections then some (conn_at (conn_index s) b) else none

  -- `pc != nullptr && !pc->dead`
  unfoldable pub is_online : Session A → Broker T A → Bool
  is_online s b = elim (conn_of_session s b) [ none ↦ false | some c ↦ not c.dead ]

  -- The guards of `try_send_to` and `send_to`.
  unfoldable pub may_send : ℕ → Bytes → Broker T A → Bool
  may_send ci pkt b =
      if not (ltb ci env.max_connections)
      then false
      else if not (conn_at ci b).active || (conn_at ci b).dead || (length pkt == 0)
      then false
      else true

  unfoldable pub transport_send : ℕ → Bytes → Broker T A → Bool × Broker T A
  transport_send ci pkt b = let (tr, taken) = env.send b.tr ci pkt in (taken, record b { tr = tr })

  unfoldable pub try_send_to : ℕ → Bytes → Broker T A → Bool × Broker T A
  try_send_to ci pkt b = if may_send ci pkt b then transport_send ci pkt b else (false, b)

  unfoldable pub send_to : ℕ → Bytes → Broker T A → Broker T A
  send_to ci pkt b =
      if may_send ci pkt b
      then (let (taken, b1) = transport_send ci pkt b in
          if taken then b1 else mark_dead ci (notify_conn env transport_send_failed ci b1))
      else b
