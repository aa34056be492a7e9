-- ===== src/Broker/Subscribe/Atomic.antt =====
-- include/minimosq/broker/broker.hpp: a malformed SUBSCRIBE or UNSUBSCRIBE is refused before it has an effect.
use minimosq_mqtt.Prelude.{
  ℕ, ◌<◌, ◌≡◌, refl, ◌⊎◌, inl, inr, Bool, true, false, none, List, [], ◌∷◌, arith, Option-cases,
  Bytes, All, length,
}
use minimosq_mqtt.Core.Span.{Err, is_ok}
use minimosq_mqtt.Topic.{topic_filter_valid}
use minimosq_mqtt.Protocol.Constants.{QoS}
use minimosq_mqtt.Broker.State.{Env, Broker, modify_conn}
use minimosq_mqtt.Broker.Notify.{violation, mark_dead, notify_violation, on_event}
use minimosq_mqtt.Broker.Subscribe.{
  first_bad, check_entries, handle_subscribe, handle_unsubscribe, entries,
}
use minimosq_mqtt.Broker.Stable.Sessions.{stored, IsDead, closing}

-- What a body has to be: every filter valid, and the list itself well-formed.
abbrev pub IsGood : Bytes → Bool → Type 0
IsGood body with_qos =
    All (λ e. topic_filter_valid e.0 ≡ true) (entries body with_qos).0
    × (is_ok (entries body with_qos).1.status ≡ true)

first_bad-none :
    (es : List (Bytes × QoS)) (st : Err)
    → first_bad es st ≡ none
    → All (λ e. topic_filter_valid e.0 ≡ true) es × (is_ok st ≡ true)
unfolding first_bad
first_bad-none [] st h = ground (arith, h)
first_bad-none ((f, q) ∷ es) st h = ground (arith, first_bad-none es st, h)

module _ {T A : Type 0} (env : Env T A) where
  closing_quiet :
      (ci : ℕ) (e : Err) (b : Broker T A) → (mark_dead ci (notify_violation ci e b)).tr ≡ b.tr
  unfolding mark_dead modify_conn notify_violation on_event
  closing_quiet ci e b = refl

  -- Either every filter of a SUBSCRIBE is valid and its list well-formed, or it leaves all
  -- sessions and retained messages as they were, sends nothing and marks the connection dead:
  -- a later bad entry undoes the earlier good ones.
  pub handle_subscribe_atomic :
      (ci si : ℕ) (body : Bytes) (b : Broker T A)
      → ci < length b.conns
      → IsGood body true
        ⊎ ((stored (handle_subscribe env ci si body b) ≡ stored b)
            × IsDead ci (handle_subscribe env ci si body b)
            × ((handle_subscribe env ci si body b).tr ≡ b.tr))
  unfolding handle_subscribe check_entries
  handle_subscribe_atomic ci si body b h =
      let es = (entries body true).0 in
      let st = (entries body true).1.status in
      elim (Option-cases (first_bad es st)) [
        | inl e ↦ inl (first_bad-none es st e)
        | inr (err, e) ↦
            rw (e, handle_subscribe, check_entries)
              (inr ((closing env ci err b h).0, (closing env ci err b h).1, closing_quiet ci err b))
      ]

  -- Either every filter of an UNSUBSCRIBE is valid and its list well-formed, or it leaves all
  -- sessions and retained messages as they were, sends nothing and marks the connection dead.
  pub handle_unsubscribe_atomic :
      (ci si : ℕ) (body : Bytes) (b : Broker T A)
      → ci < length b.conns
      → IsGood body false
        ⊎ ((stored (handle_unsubscribe env ci si body b) ≡ stored b)
            × IsDead ci (handle_unsubscribe env ci si body b)
            × ((handle_unsubscribe env ci si body b).tr ≡ b.tr))
  unfolding handle_unsubscribe check_entries violation
  handle_unsubscribe_atomic ci si body b h =
      let es = (entries body false).0 in
      let st = (entries body false).1.status in
      elim (Option-cases (first_bad es st)) [
        | inl e ↦ inl (first_bad-none es st e)
        | inr (err, e) ↦
            rw (e, handle_unsubscribe, check_entries)
              (inr ((closing env ci err b h).0, (closing env ci err b h).1, closing_quiet ci err b))
      ]
