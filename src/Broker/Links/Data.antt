-- ===== src/Broker/Links/Data.antt =====
-- `conn_data` keeps the references paired, whatever arrives.
use minimosq_mqtt.Prelude.{
  if_keeps, ℕ, ◌<◌, ◌≡◌, refl, sym, ap, subst, inl, inr, true, false, not, ◌||◌, Option, none, some,
  arith, ltb, ◌==◌, Bool-cases, Option-cases, Bytes, IsByte, All, length,
}
use minimosq_mqtt.Core.Span.{Err, is_ok}
use minimosq_mqtt.Protocol.Frame.{FrameParser, feed}
use minimosq_mqtt.Protocol.Frame.Keeps.{feed-Keeps}
use minimosq_mqtt.Protocol.Frame.Bytewise.{IsValid}
use minimosq_mqtt.Broker.State.{Env, Conn, Broker, conn_at, modify_conn, no_session}
use minimosq_mqtt.Broker.Clock.{refresh_deadline}
use minimosq_mqtt.Broker.Notify.{mark_dead, notify_violation}
use minimosq_mqtt.Broker.Teardown.{flush_dead}
use minimosq_mqtt.Broker.Entry.{on_packet, note_traffic, after_feed, conn_data}
use minimosq_mqtt.Broker.Entry.Total.{conn_data_total}
use minimosq_mqtt.Broker.Stable.{notify_violation-Quiet}
use minimosq_mqtt.Broker.Stable.Sessions.{conn_at-modify_conn, sized-Stable}
use minimosq_mqtt.Broker.Links.{links, links-Stable, conn-link_set, conn_link}
use minimosq_mqtt.Broker.Links.Rules.{IsPaired}
use minimosq_mqtt.Broker.Links.Flush.{link-conn, flush_dead-IsPaired}
use minimosq_mqtt.Broker.Links.Packet.{on_packet-IsAttached}
use minimosq_mqtt.Broker.Robust.{conn_data-Robust}
use minimosq_mqtt.Broker.Healthy.{IsHealthy, IsHealthy-Robust}
use minimosq_mqtt.Broker.Links.Size.{on_packet-IsSized, flush_dead-IsSized, modify_conn-IsSized}

module _ {T A : Type 0} (env : Env T A) where
  -- The references are paired and the table has its size.
  abbrev pub IsSound : Broker T A → Type 0
  IsSound b = IsPaired (links b) × (length b.conns ≡ env.max_connections)

  -- Sound, and the connection may be served.
  abbrev IsServed : ℕ → Broker T A → Type 0
  IsServed ci b = IsSound b × ((conn_at ci b).active ≡ true) × ((conn_at ci b).dead ≡ false)

  served_alive :
      (ci : ℕ) (b : Broker T A) (fb : ℕ) (body : Bytes)
      → (on_packet env ci b fb body).1 ≡ true
      → (conn_at ci (on_packet env ci b fb body).0).dead ≡ false
  unfolding on_packet
  served_alive ci b fb body on = ground (arith, on)

  on_packet-IsSound :
      (ci : ℕ) (b : Broker T A) (fb : ℕ) (body : Bytes)
      → IsServed ci b
      → IsSound (on_packet env ci b fb body).0
        × ((on_packet env ci b fb body).1 ≡ true → IsServed ci (on_packet env ci b fb body).0)
  on_packet-IsSound ci b fb body ((p, size), act, alive) =
      let b1 = (on_packet env ci b fb body).0 in
      let (paired, (sj, here)) = on_packet-IsAttached env ci fb body b size p act alive in
      let sound : IsSound b1 =
        (paired, on_packet-IsSized env env.max_connections ci fb body b size) in
      (
        sound,
        λ on.
            (sound, ap (λ k. k.0) (link-conn ci b1 (true, sj) here), served_alive ci b fb body on),
      )

  closed-IsSound :
      (ci : ℕ) (e : Err) (b : Broker T A)
      → IsSound b
      → IsSound (mark_dead ci (notify_violation ci e b))
  closed-IsSound ci e b (p, size) =
      let v = links-Stable env (links b) in
      let w = sized-Stable env env.max_connections in
      let told = notify_violation-Quiet env (λ x. links x ≡ links b) v.quiet ci e b refl in
      let kept =
        notify_violation-Quiet env (λ x. length x.conns ≡ env.max_connections) w.quiet ci e b
          size in
      (subst IsPaired (sym (v.killed ci _ told)) p, w.killed ci _ kept)

  flush_dead-IsSound : (b : Broker T A) → IsSound b → IsSound (flush_dead env b)
  flush_dead-IsSound b (p, size) =
      (flush_dead-IsPaired env b p, flush_dead-IsSized env env.max_connections b size)

  after_feed-IsSound :
      (ci : ℕ) (e : Err) (q : FrameParser) (b : Broker T A)
      → IsSound b
      → IsSound (after_feed env ci e q b).1
  unfolding after_feed
  after_feed-IsSound ci e q b (p, size) =
      let b1 = modify_conn ci (λ c. record c { parser = q }) b in
      let l = conn-link_set ci (λ c. record c { parser = q }) b (λ c. refl) in
      let first : IsSound b1 = (
        subst IsPaired (sym l) p,
        modify_conn-IsSized env env.max_connections ci (λ c. record c { parser = q }) b size,
      ) in
      flush_dead-IsSound _ (if_keeps IsSound (is_ok e) first (closed-IsSound ci e b1 first))

  refresh_deadline-flags :
      (now : ℕ) (c : Conn)
      → (conn_link (refresh_deadline env.traits now c) ≡ conn_link c)
        × ((refresh_deadline env.traits now c).dead ≡ c.dead)
  unfolding refresh_deadline
  refresh_deadline-flags now c = ground arith

  refreshed-IsServed :
      (ci now : ℕ) (b : Broker T A)
      → IsServed ci b
      → IsServed ci (modify_conn ci (refresh_deadline env.traits now) b)
  refreshed-IsServed ci now b ((p, size), act, alive) =
      let f = refresh_deadline env.traits now in
      let l = conn-link_set ci f b (λ c. (refresh_deadline-flags now c).0) in
      let flags = refresh_deadline-flags now (conn_at ci b) in
      (
        (subst IsPaired (sym l) p, modify_conn-IsSized env env.max_connections ci f b size),
        grind (arith, conn_at-modify_conn ci f b, ap (λ k. k.0) flags.0, act),
        grind (arith, conn_at-modify_conn ci f b, flags.1, alive),
      )

  note_traffic-IsServed :
      (ci now : ℕ) (b : Broker T A) → IsServed ci b → IsServed ci (note_traffic env ci now b)
  unfolding note_traffic links conn_at
  note_traffic-IsServed ci now b h =
      if_keeps (IsServed ci) ((conn_at ci b).session == no_session) h
        (refreshed-IsServed ci now (record b { now_ms = now }) h)

  fed-IsSound :
      (ci : ℕ) (input : Bytes) (b : Broker T A) (e : Err) (b' : Broker T A)
      → IsServed ci b
      → (elim (feed env.max_packet_size (on_packet env ci) (conn_at ci b).parser b input)
          as (λ _. Option (Err × Broker T A)) [
            | none ↦ none
            | some (err, q, b2) ↦ some (after_feed env ci err q b2)
          ])
        ≡ some (e, b')
      → IsSound b'
  fed-IsSound ci input b e b' h got =
      elim (Option-cases
        (feed env.max_packet_size (on_packet env ci) (conn_at ci b).parser b input)) [
          | inl d ↦ absurd (grind (arith, d, got))
          | inr ((err, q, b2), d) ↦
              let sound =
                feed-Keeps env.max_packet_size (on_packet env ci) (IsServed ci) IsSound
                  (on_packet-IsSound ci) (λ x g. g.0) (conn_at ci b).parser b input err q b2 h d in
              subst IsSound {x = (after_feed env ci err q b2).1} {y = b'} (grind (arith, d, got))
                (after_feed-IsSound ci err q b2 sound)
        ]

  conn_data-IsSound_of :
      (ci now : ℕ) (input : Bytes) (b : Broker T A) (e : Err) (b' : Broker T A)
      → IsSound b
      → conn_data env ci input now b ≡ some (e, b')
      → IsSound b'
  unfolding conn_data
  conn_data-IsSound_of ci now input b e b' h got =
      elim (Bool-cases (not (ltb ci env.max_connections) || not (conn_at ci b).active)) [
        | inl d ↦ subst IsSound (grind (arith, rw (d, conn_data) at got)) h
        | inr d ↦ elim (Bool-cases (conn_at ci b).dead) [
          | inl d' ↦ subst IsSound (grind (arith, rw (d, d', conn_data) at got)) h
          | inr d' ↦
              fed-IsSound ci input (note_traffic env ci now b) e b'
                (note_traffic-IsServed ci now b (h, ground (arith, d), d'))
                (rw (d, d', conn_data) at got)
        ]
      ]

  -- In a broker of `max_connections` connections whose references are paired and in which no
  -- search for an identifier has hung, with fewer than 65535 messages in a queue and fewer than
  -- 65535 sessions, each queue within its capacity, `conn_data` returns for any bytes and any
  -- index whose parser is valid, without a search that hangs, and leaves the references paired,
  -- the bounds as they were and the number of connections too, however many packets the bytes
  -- hold, whatever they are, and whatever the transport refuses and the policy answers.
  pub conn_data-IsPaired :
      (ci now : ℕ) (input : Bytes) (b : Broker T A)
      → length b.conns ≡ env.max_connections
      → IsPaired (links b)
      → env.max_pending_per_session < 65535
      → env.max_sessions < 65535
      → IsHealthy env b
      → All IsByte input
      → IsValid env.max_packet_size (conn_at ci b).parser
      → (e : Err) × (b' : Broker T A) × (conn_data env ci input now b ≡ some (e, b'))
        × IsPaired (links b')
        × (length b'.conns ≡ env.max_connections)
        × IsHealthy env b'
  conn_data-IsPaired ci now input b size p few small healthy bytes valid =
      let (e, b', got) = conn_data_total env ci now input b bytes valid in
      let (paired, sized) = conn_data-IsSound_of ci now input b e b' (p, size) got in
      let kept =
        conn_data-Robust env (IsHealthy env) (IsHealthy-Robust env few small) ci now input b e b'
          healthy got in
      (e, b', got, paired, sized, kept)
