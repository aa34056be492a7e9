-- ===== src/Broker/Stable/Route.antt =====
-- Routing, retained messages and replay keep what is stable.
use minimosq_mqtt.Prelude.{
  ℕ, zero, suc, ◌+◌, ◌%◌, ◌^◌, ◌≡◌, refl, inl, inr, some, arith, Option-cases, Bytes, length,
}
use minimosq_mqtt.Core.Pool.{at}
use minimosq_mqtt.Protocol.Constants.{QoS}
use minimosq_mqtt.Broker.Session.{Session}
use minimosq_mqtt.Broker.Retained.{Entry}
use minimosq_mqtt.Broker.State.{Env, Broker, modify_session, session_at}
use minimosq_mqtt.Broker.Routing.{
  each_session, for_each_session, apply_retain, deliver_to, route_to, route_publish, replay_entry,
  replay_loop, replay_retained, clear_pending,
}
use minimosq_mqtt.Broker.Stable.{
  Quiet, Stable, notify_denied-Quiet, notify_topic-Quiet, notify_drop-Quiet, try_send_to-Quiet,
  send_to-Stable,
}
use minimosq_mqtt.Broker.Stable.Queue.{enqueue-Quiet}

module _ {T A : Type 0} (P : Broker T A → Type 0)
    (body : ℕ → Session A → Broker T A → Broker T A) where
  each_session-Stable :
      ((si : ℕ) (s : Session A) (b : Broker T A) → session_at si b ≡ some s → P b → P (body si s b))
      → (n si : ℕ) (b : Broker T A) → P b
      → P (each_session body n si b)
  unfolding each_session
  each_session-Stable keeps zero si b h = h
  each_session-Stable keeps (suc n) si b h = elim (Option-cases (session_at si b)) [
    | inl e ↦ rw (e, each_session) (each_session-Stable keeps n (suc si) b h)
    | inr (s, e) ↦
        rw (e, each_session) (each_session-Stable keeps n (suc si) (body si s b) (keeps si s b e h))
  ]

  pub for_each_session-Stable :
      ((si : ℕ) (s : Session A) (b : Broker T A) → session_at si b ≡ some s → P b → P (body si s b))
      → (b : Broker T A) → P b
      → P (for_each_session body b)
  unfolding for_each_session
  for_each_session-Stable keeps b = each_session-Stable keeps (length b.sessions.slots) 0 b

module _ {T A : Type 0} (env : Env T A) (P : Broker T A → Type 0) (v : Quiet env P) where
  pub apply_retain-Quiet :
      (t p : Bytes) (q : QoS) (b : Broker T A) → P b → P (apply_retain env t p q b).1
  unfolding apply_retain
  apply_retain-Quiet t p q b h = grind (arith, notify_topic-Quiet env P v, v.kept)

  replay_entry-Quiet :
      (ci si : ℕ) (s : Session A) (e : Entry) (b : Broker T A)
      → session_at si b ≡ some s
      → P b
      → P (replay_entry env ci si s e b).1
  unfolding replay_entry
  replay_entry-Quiet ci si s e b at_si h = grind (
    arith,
    notify_denied-Quiet env P v,
    enqueue-Quiet env P v,
    notify_drop-Quiet env P v,
    try_send_to-Quiet env P v,
  )

  pause-Quiet :
      (si i : ℕ) (b : Broker T A)
      → P b
      → P (modify_session si (λ t. record t { retain_cursor = i }) b)
  pause-Quiet si i b =
      v.written si (λ t. record t { retain_cursor = i }) b (λ t. refl) (λ t. (omega arith, refl))

  replay_loop-Quiet :
      (n slot index ci si : ℕ) (b : Broker T A) → P b → P (replay_loop env n slot index ci si b).1
  unfolding replay_loop
  replay_loop-Quiet zero slot index ci si b h = h
  replay_loop-Quiet (suc n) slot index ci si b h = elim (Option-cases (at slot b.retained)) [
    | inl e ↦ rw (e, replay_loop) (replay_loop-Quiet n (suc slot) index ci si b h)
    | inr (e, he) ↦ elim (Option-cases (session_at si b)) [
      | inl d ↦ rw (he, replay_loop, d) h
      | inr (s, d) ↦
          rw (he, replay_loop, d)
            (ground (
              arith,
              replay_loop-Quiet n (suc slot) ((index + 1) % 2 ^ 16) ci si b h,
              replay_loop-Quiet n (suc slot) ((index + 1) % 2 ^ 16) ci si
                  (replay_entry env ci si s e b).1,
              replay_entry-Quiet ci si s e b d h,
              pause-Quiet si index (replay_entry env ci si s e b).1,
            ))
    ]
  ]

  pub replay_retained-Quiet : (ci si : ℕ) (b : Broker T A) → P b → P (replay_retained env ci si b)
  unfolding replay_retained
  replay_retained-Quiet ci si b h =
      let b1 = (replay_loop env (length b.retained.slots) 0 0 ci si b).1 in
      ground (
        arith,
        replay_loop-Quiet (length b.retained.slots) 0 0 ci si b h,
        v.written si (λ t. record t { retain_cursor = 0; subs = clear_pending t.subs }) b1
            (λ t. refl) (λ t. (omega arith, refl)),
      )

module _ {T A : Type 0} (env : Env T A) (P : Broker T A → Type 0) (v : Stable env P) where
  pub deliver_to-Stable :
      (t p : Bytes) (q : QoS) (si : ℕ) (s : Session A) (b : Broker T A)
      → session_at si b ≡ some s
      → P b
      → P (deliver_to env t p q si s b)
  unfolding deliver_to
  deliver_to-Stable t p q si s b e h =
      grind (arith, send_to-Stable env P v, enqueue-Quiet env P v.quiet)

  route_to-Stable :
      (t p : Bytes) (q : QoS) (si : ℕ) (s : Session A) (b : Broker T A)
      → session_at si b ≡ some s
      → P b
      → P (route_to env t p q si s b)
  unfolding route_to
  route_to-Stable t p q si s b e h =
      grind (arith, notify_denied-Quiet env P v.quiet, deliver_to-Stable)

  pub route_publish-Stable :
      (t p : Bytes) (q : QoS) (b : Broker T A) → P b → P (route_publish env t p q b)
  unfolding route_publish
  route_publish-Stable t p q b =
      for_each_session-Stable P (route_to env t p q)
        (λ si s c e h. route_to-Stable t p q si s c e h) b
