-- ===== src/Broker/Entry/Total.antt =====
-- include/minimosq/broker/broker.hpp: `conn_data` ends.
use minimosq_mqtt.Prelude.{
  ℕ, ◌≡◌, refl, sym, subst, ◌∙◌, inl, inr, not, ◌||◌, some, arith, ltb, Bool-cases, Option-cases,
  Bytes, IsByte, All,
}
use minimosq_mqtt.Core.Span.{Err}
use minimosq_mqtt.Protocol.Frame.{feed}
use minimosq_mqtt.Protocol.Frame.Bytewise.{IsValid}
use minimosq_mqtt.Protocol.Frame.Bytewise.Loop.{feed-run}
use minimosq_mqtt.Broker.State.{Env, Conn, Broker, conn_at}
use minimosq_mqtt.Broker.Clock.{refresh_deadline}
use minimosq_mqtt.Broker.Stable.Sessions.{conn_at-modify_conn}
use minimosq_mqtt.Broker.Entry.{on_packet, note_traffic, after_feed, conn_data}

module _ {T A : Type 0} (env : Env T A) where
  refresh_deadline-parser :
      (now : ℕ) (c : Conn) → (refresh_deadline env.traits now c).parser ≡ c.parser
  unfolding refresh_deadline
  refresh_deadline-parser now c = ground arith

  same_conn : (ci now : ℕ) (b : Broker T A) → conn_at ci (record b { now_ms = now }) ≡ conn_at ci b
  unfolding conn_at
  same_conn ci now b = refl

  note_traffic-parser :
      (ci now : ℕ) (b : Broker T A)
      → (conn_at ci (note_traffic env ci now b)).parser ≡ (conn_at ci b).parser
  unfolding note_traffic refresh_deadline
  note_traffic-parser ci now b =
      let b1 = record b { now_ms = now } in
      grind (
        arith,
        refresh_deadline-parser now (conn_at ci b1),
        conn_at-modify_conn ci (refresh_deadline env.traits now) b1,
        same_conn ci now b,
      )

  -- For bytes and a connection whose parser is valid for `max_packet_size`, `conn_data`
  -- returns: whatever the handlers do, the parser ends within its fuel.
  pub conn_data_total :
      (ci now : ℕ) (input : Bytes) (b : Broker T A)
      → All IsByte input
      → IsValid env.max_packet_size (conn_at ci b).parser
      → (e : Err) × (b' : Broker T A) × (conn_data env ci input now b ≡ some (e, b'))
  unfolding conn_data
  conn_data_total ci now input b h v =
      let b1 = note_traffic env ci now b in
      let valid =
        subst (λ p. IsValid env.max_packet_size p) (sym (note_traffic-parser ci now b)) v in
      let fed =
        feed-run env.max_packet_size (on_packet env ci) (conn_at ci b1).parser b1 input h valid in
      elim (Bool-cases (not (ltb ci env.max_connections) || not (conn_at ci b).active)) [
        | inl d ↦ (Err.state, b, rw (d, conn_data) refl)
        | inr d ↦ elim (Bool-cases (conn_at ci b).dead) [
          | inl d' ↦ (Err.ok, b, rw (d, d', conn_data) refl)
          | inr d' ↦
              elim (Option-cases
                (feed env.max_packet_size (on_packet env ci) (conn_at ci b1).parser b1 input)) [
                  | inl none_left ↦ absurd (grind (arith, sym none_left ∙ fed))
                  | inr ((e, q, b2), got) ↦ (
                    (after_feed env ci e q b2).0,
                    (after_feed env ci e q b2).1,
                    rw (d, d', got, conn_data) refl,
                  )
                ]
        ]
      ]
