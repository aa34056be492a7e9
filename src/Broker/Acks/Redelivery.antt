-- ===== src/Broker/Acks/Redelivery.antt =====
-- include/minimosq/broker/broker.hpp: a PUBLISH of QoS 2 that comes again is answered and not routed again.
use minimosq_mqtt.Prelude.{
  ℕ, ◌<◌, ◌≡◌, refl, ap, ◌≢◌, inl, inr, true, false, Option, none, some, List, [], ◌∷◌, ◌++◌, arith,
  Bool-cases, length, get_elem?-set_self, get_elem?-lt,
}
use minimosq_mqtt.Broker.Session.{Session, has_inbound_qos2}
use minimosq_mqtt.Core.Pool.{at, update}
use minimosq_mqtt.Core.StaticVector.{push_back, remove_ordered}
use minimosq_mqtt.Broker.State.{Env, Broker, session_at, modify_session, put_session}
use minimosq_mqtt.Broker.State.{inbound_qos2_evicted}
use minimosq_mqtt.Broker.Notify.{notify_conn, on_event}
use minimosq_mqtt.Broker.Links.{session-slot}
use minimosq_mqtt.Broker.Acks.{is_full, pushed, track_qos2}

module _ {T A : Type 0} (env : Env T A) where
  pub at-modified :
      (si : ℕ) (f : Session A → Session A) (b : Broker T A) (s : Session A)
      → session_at si b ≡ some s
      → session_at si (modify_session si f b) ≡ some (f s)
  unfolding modify_session put_session at update
  at-modified si f b s e =
      rw (e, modify_session)
        (ap (λ o. elim o as (λ _. Option (Session A)) [ none ↦ none | some x ↦ x ])
          (get_elem?-set_self b.sessions.slots si (some (f s))
            (get_elem?-lt b.sessions.slots si (some s) (session-slot si b s e))))

  held-append : (xs : List ℕ) (id : ℕ) → has_inbound_qos2 id (xs ++ id ∷ []) ≡ true
  unfolding has_inbound_qos2
  held-append [] id = ground arith
  held-append (x ∷ xs) id = ground (arith, held-append xs id)

  holds-pushed :
      (cap : ℕ) (xs : List ℕ) (id : ℕ)
      → length xs ≢ cap
      → has_inbound_qos2 id (pushed cap xs id) ≡ true
  unfolding push_back has_inbound_qos2
  holds-pushed cap xs id h = ground (arith, held-append xs id)

  -- A full table has room once its oldest identifier is gone.
  short :
      (xs : List ℕ) (cap : ℕ) → 0 < cap → is_full cap xs ≡ true → length (remove_ordered 0 xs) ≢ cap
  unfolding remove_ordered
  short [] cap h full = ground (arith, full)
  short (x ∷ xs) cap h full = ground (arith, full)

  held_again :
      (ci si : ℕ) (s : Session A) (id : ℕ) (b : Broker T A)
      → has_inbound_qos2 id s.inbound_qos2 ≡ true
      → track_qos2 env ci si s id b ≡ (false, b)
  unfolding track_qos2
  held_again ci si s id b d = rw (d, track_qos2) refl

  -- With room for one identifier at least, a live session that was asked to track the
  -- identifier of a QoS 2 PUBLISH is asked again: the second time it answers that the message
  -- is not to be delivered, and nothing changes, also when the first time the table was full
  -- and its oldest identifier was dropped.
  pub track_qos2_twice :
      (ci si : ℕ) (s : Session A) (id : ℕ) (b : Broker T A)
      → 0 < env.max_inbound_qos2
      → session_at si b ≡ some s
      → (s' : Session A) × (session_at si (track_qos2 env ci si s id b).1 ≡ some s')
        × (track_qos2 env ci si s' id (track_qos2 env ci si s id b).1
            ≡ (false, (track_qos2 env ci si s id b).1))
  unfolding track_qos2 notify_conn on_event
  track_qos2_twice ci si s id b h e =
      let cap = env.max_inbound_qos2 in
      elim (Bool-cases (has_inbound_qos2 id s.inbound_qos2)) [
        | inl d ↦ (s, rw (d, track_qos2) e, rw (d, track_qos2) refl)
        | inr d ↦ elim (Bool-cases (is_full cap s.inbound_qos2)) [
          | inl full ↦
              let b1 = notify_conn env inbound_qos2_evicted ci b in
              let f : Session A → Session A =
                λ t. record t { inbound_qos2 = pushed cap (remove_ordered 0 t.inbound_qos2) id } in
              (
                f s,
                rw (d, full, track_qos2) (at-modified si f b1 s e),
                rw (d, full, track_qos2)
                    (held_again ci si (f s) id _
                      (holds-pushed cap _ id (short s.inbound_qos2 cap h full))),
              )
          | inr room ↦
              let f : Session A → Session A =
                λ t. record t { inbound_qos2 = pushed cap t.inbound_qos2 id } in
              (
                f s,
                rw (d, room, track_qos2) (at-modified si f b s e),
                rw (d, room, track_qos2)
                    (held_again ci si (f s) id _
                      (holds-pushed cap s.inbound_qos2 id (ground (arith, room)))),
              )
        ]
      ]
