-- ===== src/Broker/Connect/Reserved.antt =====
-- include/minimosq/broker/broker.hpp: no client may name itself with the prefix of the assigned ids.
use minimosq_mqtt.Prelude.{ℕ, ◌<◌, ◌≡◌, true, false, arith, ◌==◌, Bytes, length}
use minimosq_mqtt.Core.Span.{malformed}
use minimosq_mqtt.Protocol.Packets.Parse.{ConnectPacket, Parsed, parse_connect}
use minimosq_mqtt.Broker.State.{Env, Broker, conn_at, no_session}
use minimosq_mqtt.Broker.ClientId.{uses_reserved_prefix}
use minimosq_mqtt.Broker.Connect.{
  check_connect, choose_id, check_id, close_malformed, handle_connect,
}
use minimosq_mqtt.Broker.Stable.Sessions.{stored, IsDead, refuse_closes, closing}

module _ {T A : Type 0} (env : Env T A) where
  long_enough : (id : Bytes) → uses_reserved_prefix id ≡ true → (length id == 0) ≡ false
  unfolding uses_reserved_prefix
  long_enough id h = ground (arith, h)

  -- A well-formed CONNECT on a connection without a session whose client id starts with the
  -- reserved "mmq-" leaves all sessions and retained messages as they were and marks the
  -- connection dead, whatever else it asks for and whatever the policy answers.
  pub handle_connect_reserved :
      (ci : ℕ) (body : Bytes) (p : ConnectPacket) (b : Broker T A)
      → ci < length b.conns
      → (conn_at ci b).session ≡ no_session
      → parse_connect body ≡ Parsed.packet p
      → uses_reserved_prefix p.client_id ≡ true
      → (stored (handle_connect env ci body b) ≡ stored b)
        × IsDead ci (handle_connect env ci body b)
  unfolding handle_connect check_connect choose_id check_id close_malformed
  handle_connect_reserved ci body p b l n e h =
      rw (e, n, handle_connect)
        (grind
          (arith, h, long_enough p.client_id h, refuse_closes env ci, closing env ci malformed b l))
