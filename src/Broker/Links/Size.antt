-- ===== src/Broker/Links/Size.antt =====
-- include/minimosq/broker/broker.hpp: no operation changes the number of connections.
use minimosq_mqtt.Prelude.{
  ℕ, ◌≡◌, ◌∙◌, ap, some, arith, inl, inr, Option-cases, Bytes, length, length-set,
}
use minimosq_mqtt.Broker.Session.{Session}
use minimosq_mqtt.Broker.State.{
  Env, Conn, Broker, conn_at, modify_conn, modify_session, put_session, session_at,
}
use minimosq_mqtt.Broker.ClientId.{generate_client_id}
use minimosq_mqtt.Broker.Connect.{alloc_session}
use minimosq_mqtt.Broker.Teardown.{flush_dead, release_session}
use minimosq_mqtt.Broker.Entry.{on_packet}
use minimosq_mqtt.Broker.Stable.Sessions.{sized-Stable}
use minimosq_mqtt.Broker.Robust.{Robust, flush_dead-Robust, on_packet-Robust}

module _ {T A : Type 0} (env : Env T A) (n : ℕ) where
  abbrev pub IsSized : Broker T A → Type 0
  IsSized b = length b.conns ≡ n

  pub modify_conn-IsSized :
      (ci : ℕ) (f : Conn → Conn) (b : Broker T A) → IsSized b → IsSized (modify_conn ci f b)
  unfolding modify_conn
  modify_conn-IsSized ci f b h = length-set b.conns ci (f (conn_at ci b)) ∙ h

  written-IsSized :
      (si : ℕ) (f : Session A → Session A) (b : Broker T A)
      → IsSized b
      → IsSized (modify_session si f b)
  unfolding modify_session put_session
  written-IsSized si f b h = elim (Option-cases (session_at si b)) [
    | inl e ↦ rw (e, modify_session) h
    | inr (s, e) ↦ rw (e, modify_session) h
  ]

  alloc_session-conns : (b : Broker T A) → (alloc_session env b).1.conns ≡ b.conns
  unfolding alloc_session
  alloc_session-conns b = ground arith

  generate_client_id-conns :
      (b : Broker T A) (id : Bytes) (b1 : Broker T A)
      → generate_client_id b ≡ some (id, b1)
      → b1.conns ≡ b.conns
  unfolding generate_client_id
  generate_client_id-conns b id b1 e = grind (arith, e)

  IsSized-Robust : Robust env IsSized
  unfolding release_session
  IsSized-Robust = record {
    stable = sized-Stable env n;
    conn_written = modify_conn-IsSized;
    session_written = λ si f b still h. written-IsSized si f b h;
    freed = λ si b h. h;
    claimed = λ b h. ap length (alloc_session-conns b) ∙ h;
    timed = λ now b h. h;
    ordered = λ k b h. h;
    assigned = λ b id b1 e h. ap length (generate_client_id-conns b id b1 e) ∙ h;
    unassigned = λ b e h. h;
    closed = λ ci b h. h;
  }

  pub flush_dead-IsSized : (b : Broker T A) → IsSized b → IsSized (flush_dead env b)
  flush_dead-IsSized = flush_dead-Robust env IsSized IsSized-Robust

  pub on_packet-IsSized :
      (ci fb : ℕ) (body : Bytes) (b : Broker T A)
      → IsSized b
      → IsSized (on_packet env ci b fb body).0
  on_packet-IsSized = on_packet-Robust env IsSized IsSized-Robust
