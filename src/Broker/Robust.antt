-- ===== src/Broker/Robust.antt =====
-- include/minimosq/broker/broker.hpp: what every entry point keeps. A property of the broker that survives
-- the few ways in which the operations write survives every call.
use minimosq_mqtt.Prelude.{
  refl, ◌≢◌, ℕ, ◌≡◌, inl, inr, Bool, Option, none, some, arith, if_keeps, subst, ltb, not, ◌||◌,
  ◌==◌, Option-cases, Bool-cases, Bytes,
}
use minimosq_mqtt.Core.Span.{Err, is_ok}
use minimosq_mqtt.Protocol.Constants.{ConnackCode, PacketType}
use minimosq_mqtt.Protocol.Frame.{FrameParser, feed}
use minimosq_mqtt.Protocol.Frame.Keeps.{feed-Keeps}
use minimosq_mqtt.Protocol.Packets.Parse.{ConnectPacket}
use minimosq_mqtt.Broker.Session.{Session}
use minimosq_mqtt.Broker.State.{
  Env, Conn, Broker, connection_closed, connection_opened, session_expired, session_of, conn_at,
  modify_conn, modify_session, hang,
}
use minimosq_mqtt.Broker.ClientId.{find_client, generate_client_id}
use minimosq_mqtt.Broker.Teardown.{
  detach, stamp, leave_session, leave_owner, close_transport, teardown, flush_dead, release_session,
  expire_sessions, is_expired,
}
use minimosq_mqtt.Broker.Connect.{
  accept_connect, refuse, fresh_connect, open_session, authenticate_connect, handle_connect,
  Checked, stuck, connect_fields, close_malformed, check_connect, choose_id, check_id, check_will,
  take_over, claim_session, alloc_session,
}
use minimosq_mqtt.Broker.Entry.{
  serve, on_packet, conn_open, conn_closed, conn_data, note_traffic, after_feed, tick, tick_session,
}
use minimosq_mqtt.Core.StaticVector.{assigned}
use minimosq_mqtt.Broker.Stable.{
  KeepsQueue, Stable, notify_conn-Quiet, notify_session-Quiet, notify_refused-Quiet,
  notify_violation-Quiet, send_to-Stable, violation-Stable,
}
use minimosq_mqtt.Broker.Stable.Queue.{resume_session-Quiet}
use minimosq_mqtt.Broker.Stable.Route.{for_each_session-Stable}
use minimosq_mqtt.Broker.Stable.Handlers.{tick_conns-Stable, tick_session-Stable}
use minimosq_mqtt.Broker.Links.Calls.{publish_will-Stable}
use minimosq_mqtt.Broker.Links.Entry.{session_packet-Stable}
use minimosq_mqtt.Broker.Links.Flush.{flush_dead-Torn}

-- A property that survives every way in which the broker writes its state.
pub record Robust {T A : Type 0} (env : Env T A) (P : Broker T A → Type 0) : Type 0 where
  pub stable : Stable env P
  pub open stable use *
  pub conn_written : (ci : ℕ) (f : Conn → Conn) (b : Broker T A) → P b → P (modify_conn ci f b)
  pub session_written :
      (si : ℕ) (f : Session A → Session A) (b : Broker T A)
      → KeepsQueue f
      → P b
      → P (modify_session si f b)
  pub freed : (si : ℕ) (b : Broker T A) → P b → P (release_session si b)
  pub claimed : (b : Broker T A) → P b → P (alloc_session env b).1
  pub timed : (now : ℕ) (b : Broker T A) → P b → P (record b { now_ms = now })
  pub ordered : (n : ℕ) (b : Broker T A) → P b → P (record b { disconnect_order = n })
  pub assigned :
      (b : Broker T A) (id : Bytes) (b1 : Broker T A)
      → generate_client_id b ≡ some (id, b1)
      → P b
      → P b1
  pub unassigned : (b : Broker T A) → generate_client_id b ≡ none → P b → P (hang b)
  pub closed : (ci : ℕ) (b : Broker T A) → P b → P (record b { tr = env.close b.tr ci })

connect_fields-KeepsQueue :
    {T A : Type 0} (env : Env T A) (p : ConnectPacket) (ci : ℕ) (ctx : A)
    → KeepsQueue (connect_fields env p ci ctx)
unfolding connect_fields
connect_fields-KeepsQueue env p ci ctx s = ground arith

module _ {T A : Type 0} (env : Env T A) (P : Broker T A → Type 0) (v : Robust env P) where
  stamped : (si : ℕ) (b : Broker T A) → P b → P (stamp env si b)
  unfolding stamp
  stamped si b h = v.session_written si _ _ (λ s. (omega arith, refl)) (v.ordered _ b h)

  left_session : (si : ℕ) (s : Session A) (b : Broker T A) → P b → P (leave_session env si s b)
  unfolding leave_session
  left_session si s b h =
      let stamp = stamped si b h in
      let told = if_keeps P s.has_will (publish_will-Stable env P v.stable si s _ stamp) stamp in
      if_keeps P s.clean_session (v.freed si _ told) told

  left_owner : (o : Option (Session A)) (si : ℕ) (b : Broker T A) → P b → P (leave_owner env o si b)
  unfolding leave_owner
  left_owner none si b h = h
  left_owner (some s) si b h = left_session si s b h

  torn : (ci : ℕ) (b : Broker T A) → P b → P (teardown env ci b)
  unfolding teardown close_transport detach
  torn ci b h =
      let c = conn_at ci b in
      let told = notify_conn-Quiet env P v.quiet connection_closed ci b h in
      let off = v.conn_written ci _ _ told in
      let alone = left_owner (session_of c b) c.session _ off in
      if_keeps P c.notify_transport (v.closed ci _ alone) alone

  pub flush_dead-Robust : (b : Broker T A) → P b → P (flush_dead env b)
  flush_dead-Robust b h = flush_dead-Torn env P (λ cj x d k. torn cj x k) b h

  take_over-Robust : (id : Bytes) (b : Broker T A) → P b → P (take_over env id b)
  unfolding take_over
  take_over-Robust id b h = grind (
    arith,
    flush_dead-Robust,
    v.killed,
    notify_session-Quiet env P v.quiet,
    Option-cases (find_client id b),
  )

  claim_session-Robust : (b : Broker T A) → P b → P (claim_session env b).1
  unfolding claim_session
  claim_session-Robust b h = grind (arith, v.claimed, notify_session-Quiet env P v.quiet, v.freed)

  accept_connect-Robust :
      (p : ConnectPacket) (ci : ℕ) (ctx : A) (si : ℕ) (present : Bool) (b : Broker T A)
      → P b
      → P (accept_connect env p ci ctx si present b)
  unfolding accept_connect
  accept_connect-Robust p ci ctx si present b h = grind (
    arith,
    v.session_written si (connect_fields env p ci ctx) b (connect_fields-KeepsQueue env p ci ctx) h,
    v.conn_written,
    notify_session-Quiet env P v.quiet,
    send_to-Stable env P v.stable,
    resume_session-Quiet env P v.quiet,
  )

  refuse-Robust :
      (ci : ℕ) (code : ConnackCode) (id : Bytes) (b : Broker T A)
      → P b
      → P (refuse env ci code id b)
  unfolding refuse
  refuse-Robust ci code id b h =
      grind (arith, v.killed, notify_refused-Quiet env P v.quiet, send_to-Stable env P v.stable)

  named :
      (si : ℕ) (id : Bytes) (b : Broker T A)
      → P b
      → P (
          modify_session si
            (λ s. record s { client_id = assigned env.max_client_id_len s.client_id id })
            b)
  named si id b = v.session_written si _ b (λ s. (omega arith, refl))

  fresh_connect-Robust :
      (p : ConnectPacket) (ci : ℕ) (ctx : A) (id : Bytes) (b : Broker T A)
      → P b
      → P (fresh_connect env p ci ctx id b)
  unfolding fresh_connect
  fresh_connect-Robust p ci ctx id b h =
      grind (arith, claim_session-Robust, refuse-Robust, accept_connect-Robust, named)

  open_session-Robust :
      (p : ConnectPacket) (ci : ℕ) (ctx : A) (id : Bytes) (b : Broker T A)
      → P b
      → P (open_session env p ci ctx id b)
  unfolding open_session
  open_session-Robust p ci ctx id b h =
      grind (arith, take_over-Robust, fresh_connect-Robust, v.freed, accept_connect-Robust)

  authenticate_connect-Robust :
      (p : ConnectPacket) (ci : ℕ) (id : Bytes) (b : Broker T A)
      → P b
      → P (authenticate_connect env p ci id b)
  unfolding authenticate_connect
  authenticate_connect-Robust p ci id b h = grind (arith, refuse-Robust, open_session-Robust)

  -- What the checks leave, also where no id was found.
  IsChecked : Checked × Broker T A → Type 0
  IsChecked r = P r.1 × (r.0 ≡ stuck → P (hang r.1))

  choose_id-Robust : (p : ConnectPacket) (b : Broker T A) → P b → IsChecked (choose_id env p b)
  unfolding choose_id IsChecked
  choose_id-Robust p b h = elim (Option-cases (generate_client_id b)) [
    | inl e ↦ rw e (ground (arith, h, v.unassigned b e h))
    | inr ((id, b1), e) ↦ rw e (ground (arith, h, v.assigned b id b1 e h))
  ]

  check_id_ends : (p : ConnectPacket) (id : Bytes) → check_id env p id ≢ stuck
  unfolding check_id check_will
  check_id_ends p id e = ground (arith, e)

  check_connect-Robust :
      (p : ConnectPacket) (b : Broker T A) → P b → IsChecked (check_connect env p b)
  unfolding check_connect IsChecked
  check_connect-Robust p b h = grind (arith, choose_id-Robust p b h, check_id_ends)

  handle_connect-Robust :
      (ci : ℕ) (body : Bytes) (b : Broker T A) → P b → P (handle_connect env ci body b)
  unfolding handle_connect close_malformed IsChecked
  handle_connect-Robust ci body b h = grind (
    arith,
    violation-Stable env P v.stable,
    v.killed,
    notify_violation-Quiet env P v.quiet,
    check_connect-Robust,
    refuse-Robust,
    authenticate_connect-Robust,
  )

  serve-Robust :
      (t : PacketType) (ci fb : ℕ) (body : Bytes) (b : Broker T A)
      → P b
      → P (serve env t ci fb body b)
  unfolding serve
  serve-Robust t ci fb body b h =
      let dialled = handle_connect-Robust ci body b h in
      grind
        (arith, dialled, violation-Stable env P v.stable, session_packet-Stable env P v.stable t)

  pub on_packet-Robust :
      (ci fb : ℕ) (body : Bytes) (b : Broker T A) → P b → P (on_packet env ci b fb body).0
  unfolding on_packet
  on_packet-Robust ci fb body b h = grind (arith, serve-Robust, violation-Stable env P v.stable)

  conn_open-Robust : (ci now : ℕ) (b : Broker T A) → P b → P (conn_open env ci now b).1
  unfolding conn_open
  conn_open-Robust ci now b h =
      grind (arith, v.conn_written, notify_conn-Quiet env P v.quiet connection_opened)

  conn_closed-Robust : (ci : ℕ) (b : Broker T A) → P b → P (conn_closed env ci b)
  unfolding conn_closed
  conn_closed-Robust ci b h = grind (arith, v.conn_written, flush_dead-Robust)

  note_traffic-Robust : (ci now : ℕ) (b : Broker T A) → P b → P (note_traffic env ci now b)
  unfolding note_traffic
  note_traffic-Robust ci now b h = grind (arith, v.conn_written, v.timed)

  after_feed-Robust :
      (ci : ℕ) (e : Err) (q : FrameParser) (b : Broker T A) → P b → P (after_feed env ci e q b).1
  unfolding after_feed
  after_feed-Robust ci e q b h =
      let written = v.conn_written ci (λ c. record c { parser = q }) b h in
      flush_dead-Robust _ (
        if_keeps P (is_ok e) written
          (v.killed ci _ (notify_violation-Quiet env P v.quiet ci e _ written)))

  pub conn_data-Robust :
      (ci now : ℕ) (input : Bytes) (b : Broker T A) (e : Err) (b' : Broker T A)
      → P b
      → conn_data env ci input now b ≡ some (e, b')
      → P b'
  unfolding conn_data
  conn_data-Robust ci now input b e b' h got =
      elim (Bool-cases (not (ltb ci env.max_connections) || not (conn_at ci b).active)) [
        | inl d ↦ subst P {x = b} {y = b'} (grind (arith, rw (d, conn_data) at got)) h
        | inr d ↦ elim (Bool-cases (conn_at ci b).dead) [
          | inl d' ↦ subst P {x = b} {y = b'} (grind (arith, rw (d, d', conn_data) at got)) h
          | inr d' ↦
              let b1 = note_traffic env ci now b in
              let fed =
                feed env.max_packet_size (on_packet env ci) (conn_at ci b1).parser b1 input in
              elim (Option-cases fed) [
                | inl f ↦ absurd (grind (arith, rw (d, d', f, conn_data) at got))
                | inr ((err, q, b2), f) ↦
                    let kept =
                      feed-Keeps env.max_packet_size (on_packet env ci) P P
                        (λ x fb body g.
                          (on_packet-Robust ci fb body x g, λ on. on_packet-Robust ci fb body x g))
                        (λ x g. g) (conn_at ci b1).parser b1 input err q b2
                        (note_traffic-Robust ci now b h) f in
                    subst P {x = (after_feed env ci err q b2).1} {y = b'}
                      (grind (arith, rw (d, d', f, conn_data) at got))
                      (after_feed-Robust ci err q b2 kept)
              ]
        ]
      ]

  expire_sessions-Robust : (now : ℕ) (b : Broker T A) → P b → P (expire_sessions env now b)
  unfolding expire_sessions
  expire_sessions-Robust now b h = if_keeps P (env.session_expiry_ms == 0) h (
      for_each_session-Stable P _
        (λ si s x e k.
          if_keeps P (is_expired env now s)
            (v.freed si _ (notify_session-Quiet env P v.quiet session_expired s x k)) k)
        b h)

  tick-Robust : (now : ℕ) (b : Broker T A) → P b → P (tick env now b)
  unfolding tick
  tick-Robust now b h = expire_sessions-Robust now _ (
      flush_dead-Robust _ (
        for_each_session-Stable P (tick_session env)
          (λ si s x e k. tick_session-Stable env P v.stable si s x k) _
          (tick_conns-Stable env P v.stable now env.max_connections 0 _ (v.timed now b h))))

  -- What the calls of a transport keep.
  pub calls-Robust :
      (b : Broker T A)
      → P b
      → ((ci now : ℕ) → P (conn_open env ci now b).1)
        × ((ci : ℕ) (input : Bytes) (now : ℕ) (e : Err) (b' : Broker T A)
            → conn_data env ci input now b ≡ some (e, b')
            → P b')
        × ((ci : ℕ) → P (conn_closed env ci b))
        × ((now : ℕ) → P (tick env now b))
  calls-Robust b h = (
    λ ci now. conn_open-Robust ci now b h,
    λ ci input now e b' got. conn_data-Robust ci now input b e b' h got,
    λ ci. conn_closed-Robust ci b h,
    λ now. tick-Robust now b h,
  )
