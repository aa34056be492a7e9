-- ===== src/Broker/Links/Entry.antt =====
-- The entry points of the broker keep the references paired.
use minimosq_mqtt.Prelude.{
  ℕ, ◌≡◌, refl, sym, ap, subst, ◌∙◌, ◌≢◌, inl, inr, Bool, true, false, not, ◌||◌, none, some, arith,
  ltb, ◌==◌, Bool-cases, Option-cases, Bytes, length, set, get_elem?,
}
use minimosq_mqtt.Core.Span.{Err, malformed}
use minimosq_mqtt.Protocol.Constants.{
  PacketType, connect, publish, pubrel, puback, pubrec, pubcomp, subscribe, unsubscribe, pingreq,
  disconnect, packet_type, QoS,
}
use minimosq_mqtt.Broker.Session.{Session}
use minimosq_mqtt.Broker.State.{
  Env, Conn, Broker, EventKind, connection_opened, session_expired, modify_conn, conn_at,
  session_at, no_session, is_connected,
}
use minimosq_mqtt.Broker.Notify.{on_event, notify_conn, notify_session}
use minimosq_mqtt.Broker.Teardown.{release_session, expire_sessions}
use minimosq_mqtt.Broker.Connect.{handle_connect}
use minimosq_mqtt.Broker.Entry.{
  session_packet, serve, on_packet, conn_open, conn_closed, tick_session, tick, publish_message,
}
use minimosq_mqtt.Broker.Stable.{session_link, violation-Stable}
use minimosq_mqtt.Broker.Stable.Route.{
  apply_retain-Quiet, route_publish-Stable, for_each_session-Stable,
}
use minimosq_mqtt.Broker.Stable.Handlers.{
  handle_publish-Stable, handle_puback-Stable, handle_pubrec-Stable, handle_pubrel-Stable,
  handle_pubcomp-Stable, handle_subscribe-Stable, handle_unsubscribe-Stable, handle_pingreq-Stable,
  handle_disconnect-Stable, tick_conns-Stable, tick_session-Stable,
}
use minimosq_mqtt.Broker.Links.{
  Links, links, session-link, links-release_session, links-Stable, conn_link, links-modify_conn,
  conn-link_set, Stable,
}
use minimosq_mqtt.Broker.Links.Rules.{IsPaired, open-IsPaired, slot-IsPaired, none-IsFresh}
use minimosq_mqtt.Broker.Links.Flush.{flush_dead-IsPaired, conn-link}

module _ {T A : Type 0} (env : Env T A) where
  second_connect :
      (ci : ℕ) (body : Bytes) (b : Broker T A) (l : Links)
      → (conn_at ci b).session ≢ no_session
      → links b ≡ l
      → links (handle_connect env ci body b) ≡ l
  unfolding handle_connect
  second_connect ci body b l n h =
      let refused = violation-Stable env (λ x. links x ≡ l) (links-Stable env l) ci Err.state b h in
      ground (arith, refused)

  pub session_packet-Stable :
      (P : Broker T A → Type 0) (v : Stable env P) (t : PacketType) (ci si : ℕ) (s : Session A)
      (fb : ℕ)
      → (body : Bytes) (b : Broker T A) → P b
      → P (handle_connect env ci body b)
      → P (session_packet env t ci si s fb body b)
  unfolding session_packet
  session_packet-Stable P v t ci si s fb body b h c =
      elim t as (λ t. P (session_packet env t ci si s fb body b)) [
        | connect ↦ c
        | publish ↦ handle_publish-Stable env P v ci si s fb body b h
        | pubrel ↦ handle_pubrel-Stable env P v ci si body b h
        | puback ↦ handle_puback-Stable env P v ci si s body b h
        | pubrec ↦ handle_pubrec-Stable env P v ci si s body b h
        | pubcomp ↦ handle_pubcomp-Stable env P v ci si s body b h
        | subscribe ↦ handle_subscribe-Stable env P v ci si body b h
        | unsubscribe ↦ handle_unsubscribe-Stable env P v ci si body b h
        | pingreq ↦ handle_pingreq-Stable env P v ci body b h
        | disconnect ↦ handle_disconnect-Stable env P v ci si body b h
        | _ ↦ violation-Stable env P v ci malformed b h
      ]

  session_packet-links :
      (t : PacketType) (ci si : ℕ) (s : Session A) (fb : ℕ) (body : Bytes) (b : Broker T A)
      (l : Links)
      → (conn_at ci b).session ≢ no_session
      → links b ≡ l
      → links (session_packet env t ci si s fb body b) ≡ l
  session_packet-links t ci si s fb body b l n h =
      session_packet-Stable (λ x. links x ≡ l) (links-Stable env l) t ci si s fb body b h
        (second_connect ci body b l n h)

  serve-links :
      (t : PacketType) (ci fb : ℕ) (body : Bytes) (b : Broker T A) (l : Links)
      → (conn_at ci b).session ≢ no_session
      → links b ≡ l
      → links (serve env t ci fb body b) ≡ l
  unfolding serve
  serve-links t ci fb body b l n h = grind (
    arith,
    session_packet-links t ci (conn_at ci b).session,
    Option-cases (session_at (conn_at ci b).session b),
  )

  -- A packet of any type on a connection that has a session opens and closes no connection,
  -- and creates, ends, renames or moves no session: `active`, `session`, `client_id` and
  -- `conn` stay as they are throughout the broker until the deferred teardown.
  pub on_packet-links :
      (ci fb : ℕ) (body : Bytes) (b : Broker T A)
      → (conn_at ci b).session ≢ no_session
      → links (on_packet env ci b fb body).0 ≡ links b
  unfolding on_packet
  on_packet-links ci fb body b n =
      let bad =
        violation-Stable env (λ x. links x ≡ links b) (links-Stable env (links b)) ci malformed b
          refl in
      grind (arith, bad, serve-links (packet_type fb) ci fb body b (links b) n refl)

  opened-IsPaired :
      (ci : ℕ) (f : Conn → Conn) (b : Broker T A)
      → ((c : Conn) → conn_link (f c) ≡ (true, no_session))
      → get_elem? (links b).0 ci ≡ some (conn_link (conn_at ci b))
      → (conn_at ci b).active ≡ false
      → IsPaired (links b)
      → IsPaired (links (modify_conn ci f b))
  opened-IsPaired ci f b opens here idle p =
      subst IsPaired
        (sym (
          links-modify_conn ci f b
          ∙ ap (λ k. (set (links b).0 ci k, (links b).1)) (opens (conn_at ci b))))
        (open-IsPaired _ _ ci (conn_at ci b).session p
          (here ∙ ap (λ a. some (a, (conn_at ci b).session)) idle))

  reported-IsPaired :
      (k : EventKind) (ci : ℕ) (b : Broker T A)
      → IsPaired (links b)
      → IsPaired (links (notify_conn env k ci b))
  unfolding notify_conn on_event links
  reported-IsPaired k ci b h = h

  conn_open-IsPaired :
      (ci now : ℕ) (b : Broker T A)
      → length b.conns ≡ env.max_connections
      → IsPaired (links b)
      → IsPaired (links (conn_open env ci now b).1)
  unfolding conn_open
  conn_open-IsPaired ci now b e p =
      elim (Bool-cases (not (ltb ci env.max_connections) || (conn_at ci b).active)) [
        | inl d ↦ rw (d, conn_open) p
        | inr d ↦
            rw (d, conn_open)
              (reported-IsPaired connection_opened ci _ (
                opened-IsPaired ci _ b (λ c. refl) (conn-link ci b (ground (arith, d, e)))
                  (ground (arith, d)) p))
      ]

  conn_closed-IsPaired :
      (ci : ℕ) (b : Broker T A) → IsPaired (links b) → IsPaired (links (conn_closed env ci b))
  unfolding conn_closed
  conn_closed-IsPaired ci b p =
      let dying =
        conn-link_set ci (λ c. record c { notify_transport = false; dead = true }) b (λ c. refl) in
      grind (arith, flush_dead-IsPaired env, dying)

  expire-IsPaired :
      (si : ℕ) (s : Session A) (b : Broker T A)
      → session_at si b ≡ some s
      → is_connected s ≡ false
      → IsPaired (links b)
      → IsPaired (links (release_session si (notify_session session_expired s b)))
  unfolding notify_session on_event links
  expire-IsPaired si s b e off p =
      let b1 = notify_session session_expired s b in
      subst IsPaired (sym (links-release_session si b1 s e)) (
        slot-IsPaired _ _ si (some (session_link s)) none p (session-link si b s e)
          (inr (ap some (ground (arith, off)))) (inl refl) (none-IsFresh _ si))

  expire_sessions-IsPaired :
      (now : ℕ) (b : Broker T A) → IsPaired (links b) → IsPaired (links (expire_sessions env now b))
  unfolding expire_sessions
  expire_sessions-IsPaired now b p = elim (Bool-cases (env.session_expiry_ms == 0)) [
    | inl d ↦ rw (d, expire_sessions) p
    | inr d ↦
        rw (d, expire_sessions)
          (for_each_session-Stable (λ x. IsPaired (links x)) _
            (λ si s b1 e q. grind (arith, q, expire-IsPaired si s b1 e)) b p)
  ]

  publish_message-IsPaired :
      (topic payload : Bytes) (qos : QoS) (retain : Bool) (b : Broker T A)
      → IsPaired (links b)
      → IsPaired (links (publish_message env topic payload qos retain b).1)
  unfolding publish_message
  publish_message-IsPaired topic payload qos retain b p =
      let P : Broker T A → Type 0 = λ x. links x ≡ links b in
      let v = links-Stable env (links b) in
      let kept = apply_retain-Quiet env P v.quiet topic payload qos b refl in
      grind (arith, flush_dead-IsPaired env, route_publish-Stable env P v topic payload qos, kept)

  tick-IsPaired :
      (now : ℕ) (b : Broker T A) → IsPaired (links b) → IsPaired (links (tick env now b))
  unfolding tick links
  tick-IsPaired now b p = expire_sessions-IsPaired now _ (
      flush_dead-IsPaired env _ (
        let P : Broker T A → Type 0 = λ x. links x ≡ links b in
        let v = links-Stable env (links b) in
        subst IsPaired
          (sym (
            for_each_session-Stable P (tick_session env)
              (λ si s b1 e q. tick_session-Stable env P v si s b1 q) _
              (tick_conns-Stable env P v now env.max_connections 0 _ refl)))
          p))

  -- In a broker of `max_connections` connections whose references are paired (a connection
  -- with a session is open and its session refers back to it, a session with a connection is
  -- referred to by that open connection, no two sessions have one client id, and there are at
  -- most 65535 of each) they are paired after `conn_open`, `conn_closed`, `tick` and
  -- `publish` with any arguments, whatever the transport refuses and the policy answers.
  pub calls-IsPaired :
      (b : Broker T A)
      → length b.conns ≡ env.max_connections
      → IsPaired (links b)
      → ((ci now : ℕ) → IsPaired (links (conn_open env ci now b).1))
        × ((ci : ℕ) → IsPaired (links (conn_closed env ci b)))
        × ((now : ℕ) → IsPaired (links (tick env now b)))
        × ((topic payload : Bytes) (qos : QoS) (retain : Bool)
            → IsPaired (links (publish_message env topic payload qos retain b).1))
  calls-IsPaired b e p = (
    λ ci now. conn_open-IsPaired ci now b e p,
    λ ci. conn_closed-IsPaired ci b p,
    λ now. tick-IsPaired now b p,
    λ topic payload qos retain. publish_message-IsPaired topic payload qos retain b p,
  )
