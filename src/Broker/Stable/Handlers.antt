-- ===== src/Broker/Stable/Handlers.antt =====
-- The handlers that neither connect nor disconnect keep what is stable.
use minimosq_mqtt.Prelude.{
  ℕ, zero, suc, refl, inl, inr, false, List, [], ◌∷◌, arith, Option-cases, Bytes,
}
use minimosq_mqtt.Protocol.Constants.{QoS}
use minimosq_mqtt.Protocol.Packets.Parse.{PublishPacket}
use minimosq_mqtt.Protocol.Writer.{Writer}
use minimosq_mqtt.Broker.Session.{Session, Subscription, OutState}
use minimosq_mqtt.Broker.State.{Env, Broker, modify_session, session_at}
use minimosq_mqtt.Broker.Routing.{clear_pending}
use minimosq_mqtt.Broker.Acks.{
  track_qos2, forward, acknowledge, accept_publish, handle_publish, complete, handle_puback,
  handle_pubcomp, handle_disconnect, await_pubcomp, handle_pubrec, handle_pubrel,
}
use minimosq_mqtt.Broker.Subscribe.{
  apply_entry, apply_entries, start_replay, apply_subscribe, handle_subscribe, handle_unsubscribe,
  subscribe_one,
}
use minimosq_mqtt.Broker.Entry.{handle_pingreq, tick_session, tick_conns}
use minimosq_mqtt.Broker.Stable.{
  Stable, notify_conn-Quiet, notify_violation-Quiet, violation-Stable, notify_denied-Quiet,
  set_msg-Quiet, drop_msg-Quiet, send_to-Stable,
}
use minimosq_mqtt.Broker.Stable.Queue.{pump_session-Quiet}
use minimosq_mqtt.Broker.Stable.Route.{
  apply_retain-Quiet, route_publish-Stable, replay_retained-Quiet,
}

module _ {T A : Type 0} (env : Env T A) (P : Broker T A → Type 0) (v : Stable env P) where
  set_inbound-Stable :
      (si : ℕ) (g : List ℕ → List ℕ) (b : Broker T A)
      → P b
      → P (modify_session si (λ t. record t { inbound_qos2 = g t.inbound_qos2 }) b)
  set_inbound-Stable si g b =
      v.written si (λ t. record t { inbound_qos2 = g t.inbound_qos2 }) b (λ t. refl)
        (λ t. (omega arith, refl))

  set_subs-Stable :
      (si : ℕ) (g : List Subscription → List Subscription) (b : Broker T A)
      → P b
      → P (modify_session si (λ t. record t { subs = g t.subs }) b)
  set_subs-Stable si g b =
      v.written si (λ t. record t { subs = g t.subs }) b (λ t. refl) (λ t. (omega arith, refl))

  track_qos2-Stable :
      (ci si : ℕ) (s : Session A) (id : ℕ) (b : Broker T A)
      → P b
      → P (track_qos2 env ci si s id b).1
  unfolding track_qos2
  track_qos2-Stable ci si s id b h =
      grind (arith, set_inbound-Stable, notify_conn-Quiet env P v.quiet)

  forward-Stable :
      (s : Session A) (p : PublishPacket) (b : Broker T A) → P b → P (forward env s p b)
  unfolding forward
  forward-Stable s p b h = grind (
    arith,
    notify_denied-Quiet env P v.quiet,
    apply_retain-Quiet env P v.quiet,
    route_publish-Stable env P v,
  )

  acknowledge-Stable :
      (ci : ℕ) (p : PublishPacket) (b : Broker T A) → P b → P (acknowledge env ci p b)
  unfolding acknowledge
  acknowledge-Stable ci p b h = grind (arith, send_to-Stable env P v)

  accept_publish-Stable :
      (ci si : ℕ) (s : Session A) (p : PublishPacket) (b : Broker T A)
      → P b
      → P (accept_publish env ci si s p b)
  unfolding accept_publish
  accept_publish-Stable ci si s p b h =
      grind (arith, track_qos2-Stable, forward-Stable, acknowledge-Stable)

  pub handle_publish-Stable :
      (ci si : ℕ) (s : Session A) (first_byte : ℕ) (body : Bytes) (b : Broker T A)
      → P b
      → P (handle_publish env ci si s first_byte body b)
  unfolding handle_publish
  handle_publish-Stable ci si s first_byte body b h =
      grind (arith, notify_violation-Quiet env P v.quiet, v.killed, accept_publish-Stable)

  complete-Stable :
      (st : OutState) (si : ℕ) (s : Session A) (id : ℕ) (b : Broker T A)
      → P b
      → P (complete st si s id b)
  unfolding complete
  complete-Stable st si s id b h = grind (arith, drop_msg-Quiet env P v.quiet)

  pub handle_puback-Stable :
      (ci si : ℕ) (s : Session A) (body : Bytes) (b : Broker T A)
      → P b
      → P (handle_puback ci si s body b)
  unfolding handle_puback
  handle_puback-Stable ci si s body b h = grind (arith, violation-Stable env P v, complete-Stable)

  pub handle_pubcomp-Stable :
      (ci si : ℕ) (s : Session A) (body : Bytes) (b : Broker T A)
      → P b
      → P (handle_pubcomp ci si s body b)
  unfolding handle_pubcomp
  handle_pubcomp-Stable ci si s body b h = grind (arith, violation-Stable env P v, complete-Stable)

  pub handle_disconnect-Stable :
      (ci si : ℕ) (body : Bytes) (b : Broker T A) → P b → P (handle_disconnect ci si body b)
  unfolding handle_disconnect
  handle_disconnect-Stable ci si body b h =
      let disarm =
        v.written si (λ s. record s { has_will = false }) b (λ s. refl) (λ s. (omega arith, refl))
          h in
      grind (arith, violation-Stable env P v, v.killed)

  await_pubcomp-Stable :
      (si : ℕ) (s : Session A) (i : ℕ) (b : Broker T A) → P b → P (await_pubcomp si s i b)
  unfolding await_pubcomp
  await_pubcomp-Stable si s i b h = grind (arith, set_msg-Quiet env P v.quiet)

  pub handle_pubrec-Stable :
      (ci si : ℕ) (s : Session A) (body : Bytes) (b : Broker T A)
      → P b
      → P (handle_pubrec env ci si s body b)
  unfolding handle_pubrec
  handle_pubrec-Stable ci si s body b h =
      grind (arith, violation-Stable env P v, await_pubcomp-Stable, send_to-Stable env P v)

  pub handle_pubrel-Stable :
      (ci si : ℕ) (body : Bytes) (b : Broker T A) → P b → P (handle_pubrel env ci si body b)
  unfolding handle_pubrel
  handle_pubrel-Stable ci si body b h =
      grind (arith, violation-Stable env P v, send_to-Stable env P v, set_inbound-Stable)

  pub handle_pingreq-Stable :
      (ci : ℕ) (body : Bytes) (b : Broker T A) → P b → P (handle_pingreq env ci body b)
  unfolding handle_pingreq
  handle_pingreq-Stable ci body b h =
      grind (arith, violation-Stable env P v, send_to-Stable env P v)

  apply_entry-Stable :
      (si : ℕ) (filter : Bytes) (q : QoS) (w : Writer) (b : Broker T A)
      → P b
      → P (apply_entry env si filter q (w, b)).1
  unfolding apply_entry
  apply_entry-Stable si filter q w b h = elim (Option-cases (session_at si b)) [
    | inl e ↦ rw (e, apply_entry) h
    | inr (s, e) ↦
        let written =
          v.written si (λ t. record t { subs = (subscribe_one env.traits filter q s.subs).1 }) b
            (λ t. refl) (λ t. (omega arith, refl)) h in
        rw (e, apply_entry) (grind (arith, notify_denied-Quiet env P v.quiet))
  ]

  apply_entries-Stable :
      (si : ℕ) (es : List (Bytes × QoS)) (w : Writer) (b : Broker T A)
      → P b
      → P (apply_entries env si es (w, b)).1
  unfolding apply_entries
  apply_entries-Stable si [] w b h = h
  apply_entries-Stable si ((filter, q) ∷ es) w b h =
      apply_entries-Stable si es (apply_entry env si filter q (w, b)).0 _
        (apply_entry-Stable si filter q w b h)

  start_replay-Stable : (ci si : ℕ) (b : Broker T A) → P b → P (start_replay env ci si b)
  unfolding start_replay
  start_replay-Stable ci si b h =
      let rewound =
        v.written si (λ t. record t { retain_cursor = 0 }) b (λ t. refl) (λ t. (omega arith, refl))
          h in
      grind (arith, replay_retained-Quiet env P v.quiet)

  apply_subscribe-Stable :
      (ci si : ℕ) (body : Bytes) (b : Broker T A) → P b → P (apply_subscribe env ci si body b)
  unfolding apply_subscribe
  apply_subscribe-Stable ci si body b h =
      let cleared = set_subs-Stable si clear_pending b h in
      grind (
        arith,
        apply_entries-Stable,
        notify_violation-Quiet env P v.quiet,
        v.killed,
        send_to-Stable env P v,
        start_replay-Stable,
      )

  pub handle_subscribe-Stable :
      (ci si : ℕ) (body : Bytes) (b : Broker T A) → P b → P (handle_subscribe env ci si body b)
  unfolding handle_subscribe
  handle_subscribe-Stable ci si body b h =
      grind (arith, notify_violation-Quiet env P v.quiet, v.killed, apply_subscribe-Stable)

  pub handle_unsubscribe-Stable :
      (ci si : ℕ) (body : Bytes) (b : Broker T A) → P b → P (handle_unsubscribe env ci si body b)
  unfolding handle_unsubscribe
  handle_unsubscribe-Stable ci si body b h =
      grind (arith, violation-Stable env P v, set_subs-Stable, send_to-Stable env P v)

  pub tick_session-Stable :
      (si : ℕ) (s : Session A) (b : Broker T A) → P b → P (tick_session env si s b)
  unfolding tick_session
  tick_session-Stable si s b h =
      grind (arith, replay_retained-Quiet env P v.quiet, pump_session-Quiet env P v.quiet)

  pub tick_conns-Stable : (now n i : ℕ) (b : Broker T A) → P b → P (tick_conns env now n i b)
  unfolding tick_conns
  tick_conns-Stable now zero i b h = h
  tick_conns-Stable now (suc n) i b h =
      tick_conns-Stable now n (suc i) _ (grind (arith, notify_conn-Quiet env P v.quiet, v.killed))
