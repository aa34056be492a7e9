-- ===== src/Broker/Links/Packet.antt =====
-- Every packet keeps the references paired, a CONNECT included.
use minimosq_mqtt.Prelude.{if_keeps, ℕ, ◌≡◌, refl, inl, inr, true, false, Bytes, length}
use minimosq_mqtt.Core.Span.{Err, malformed}
use minimosq_mqtt.Protocol.Constants.{
  connect, type_eq, packet_type, packet_flags, fixed_flags_valid,
}
use minimosq_mqtt.Broker.State.{Env, Broker, conn_at, no_session}
use minimosq_mqtt.Broker.Notify.{violation}
use minimosq_mqtt.Broker.Entry.{serve, on_packet}
use minimosq_mqtt.Broker.Stable.{violation-Stable}
use minimosq_mqtt.Broker.Links.{links, links-Stable}
use minimosq_mqtt.Broker.Links.Rules.{IsPaired, ℕ-cases}
use minimosq_mqtt.Broker.Links.Flush.{active-link}
use minimosq_mqtt.Broker.Links.Attach.{IsAttached, same-IsAttached}
use minimosq_mqtt.Broker.Links.Connect.{handle_connect-IsAttached}
use minimosq_mqtt.Broker.Links.Entry.{on_packet-links}

module _ {T A : Type 0} (env : Env T A) where
  violation-IsAttached :
      (ci : ℕ) (e : Err) (b : Broker T A) → IsAttached ci b → IsAttached ci (violation ci e b)
  violation-IsAttached ci e b h =
      same-IsAttached ci b _
        (violation-Stable env (λ x. links x ≡ links b) (links-Stable env (links b)) ci e b refl) h

  -- In a broker of `max_connections` connections whose references are paired, a packet of any
  -- type and content on an open connection that is not dead leaves them paired and the
  -- connection open: a CONNECT that takes over a session, evicts one, replaces or resumes one
  -- leaves each session with one connection at most and each client id with one session.
  pub on_packet-IsAttached :
      (ci fb : ℕ) (body : Bytes) (b : Broker T A)
      → length b.conns ≡ env.max_connections
      → IsPaired (links b)
      → (conn_at ci b).active ≡ true
      → (conn_at ci b).dead ≡ false
      → IsAttached ci (on_packet env ci b fb body).0
  unfolding on_packet serve
  on_packet-IsAttached ci fb body b e q act alive =
      let here = active-link ci b act in
      let now : IsAttached ci b = (q, ((conn_at ci b).session, here)) in
      elim (ℕ-cases (conn_at ci b).session no_session) [
        | inr n ↦ same-IsAttached ci b _ (on_packet-links env ci fb body b n) now
        | inl n ↦
            if_keeps (IsAttached ci) (fixed_flags_valid (packet_type fb) (packet_flags fb))
              (rw (n, serve)
                (if_keeps (IsAttached ci) (type_eq (packet_type fb) connect)
                  (handle_connect-IsAttached env ci body b e q here alive)
                  (violation-IsAttached ci Err.state b now)))
              (violation-IsAttached ci malformed b now)
      ]
