-- ===== src/Broker/Stable/Sessions.antt =====
-- What reports, sends and closes leave alone: the sessions, the retained messages, the size of the table.
use minimosq_mqtt.Prelude.{
  ℕ, ◌<◌, ◌≡◌, refl, sym, ap, subst, ◌∙◌, ◌⊎◌, inl, inr, true, false, none, some, arith,
  Option-cases, Bytes, length, get_elem?, length-set, get_elem?-set_self, get_elem?-set_out,
  get_elem?-lt,
}
use minimosq_mqtt.Core.Span.{Err}
use minimosq_mqtt.Core.Pool.{Pool}
use minimosq_mqtt.Protocol.Constants.{ConnackCode}
use minimosq_mqtt.Broker.Session.{Session}
use minimosq_mqtt.Broker.Retained.{Entry}
use minimosq_mqtt.Broker.State.{
  Env, Broker, Conn, new_conn, conn_at, session_at, modify_conn, modify_session, put_session,
  transport_send_failed,
}
use minimosq_mqtt.Broker.Notify.{mark_dead, on_event, notify_conn, notify_violation, notify_refused}
use minimosq_mqtt.Broker.Send.{transport_send, send_to}
use minimosq_mqtt.Protocol.Packets.Build.{build_connack}
use minimosq_mqtt.Broker.Delivery.{out_cap}
use minimosq_mqtt.Broker.Stable.{Stable, send_to-Stable}
use minimosq_mqtt.Broker.Connect.{refuse}

module _ {T A : Type 0} where
  -- The sessions and the retained messages.
  abbrev pub stored : Broker T A → Pool (Session A) × Pool Entry
  stored b = (b.sessions, b.retained)

  -- A write to a connection, or to an index out of range.
  pub conn_at-modify_conn :
      (ci : ℕ) (f : Conn → Conn) (b : Broker T A)
      → (conn_at ci (modify_conn ci f b) ≡ f (conn_at ci b))
        ⊎ (conn_at ci (modify_conn ci f b) ≡ conn_at ci b)
  unfolding modify_conn conn_at
  conn_at-modify_conn ci f b = elim (Option-cases (get_elem? b.conns ci)) [
    | inl e ↦ inr (
        ap (λ o. elim o as (λ _. Conn) [ none ↦ new_conn | some c ↦ c ])
          (get_elem?-set_out b.conns ci _ e ∙ sym e))
    | inr (c, e) ↦ inl (
        rw (get_elem?-set_self b.conns ci (f (conn_at ci b)) (get_elem?-lt b.conns ci c e), conn_at)
          refl)
  ]

  -- A connection that exists and is marked for teardown.
  abbrev pub IsDead : ℕ → Broker T A → Type 0
  IsDead ci b = (ci < length b.conns) × ((conn_at ci b).dead ≡ true)

  pub mark_dead-IsDead :
      (ci : ℕ) (b : Broker T A) → ci < length b.conns → IsDead ci (mark_dead ci b)
  unfolding mark_dead modify_conn conn_at
  mark_dead-IsDead ci b h = (
    rw (length-set b.conns ci (record (conn_at ci b) { dead = true })) h,
    rw (get_elem?-set_self b.conns ci (record (conn_at ci b) { dead = true }) h, conn_at) refl,
  )

  pub mark_dead-stored : (ci : ℕ) (b : Broker T A) → stored (mark_dead ci b) ≡ stored b
  unfolding mark_dead modify_conn
  mark_dead-stored ci b = refl

  modify_session-conns :
      (si : ℕ) (f : Session A → Session A) (b : Broker T A)
      → length (modify_session si f b).conns ≡ length b.conns
  unfolding modify_session put_session
  modify_session-conns si f b = elim (Option-cases (session_at si b)) [
    | inl e ↦ rw (e, modify_session) refl
    | inr (s, e) ↦ rw (e, modify_session) refl
  ]

  pub sized-Stable : (env : Env T A) (n : ℕ) → Stable env (λ b. length b.conns ≡ n)
  unfolding transport_send on_event mark_dead modify_conn modify_session put_session
  sized-Stable env n = record {
    quiet = record {
      event = λ e b h. h;
      sent = λ ci pkt b h. h;
      kept = λ r b h. h;
      written = λ si f b keeps still h. modify_session-conns si f b ∙ h;
      identified = λ si id b small h. modify_session-conns si _ b ∙ h;
      queued = λ si s m ms b e f h. modify_session-conns si _ b ∙ h;
      searched = λ si s b e none_left h. h;
    };
    killed = λ ci b h. length-set b.conns ci _ ∙ h;
  }

module _ {T A : Type 0} (env : Env T A) where
  pub send_to-stored :
      (ci : ℕ) (pkt : Bytes) (b : Broker T A) → stored (send_to env ci pkt b) ≡ stored b
  unfolding send_to transport_send notify_conn on_event
  send_to-stored ci pkt b =
      let failed =
        mark_dead-stored ci
          (notify_conn env transport_send_failed ci (transport_send env ci pkt b).1) in
      ground (arith, failed)

  pub refuse_closes :
      (ci : ℕ) (code : ConnackCode) (id : Bytes) (b : Broker T A)
      → ci < length b.conns
      → (stored (refuse env ci code id b) ≡ stored b) × IsDead ci (refuse env ci code id b)
  unfolding refuse notify_refused on_event
  refuse_closes ci code id b h =
      let b1 = notify_refused ci id code b in
      let pkt = build_connack (out_cap env) false code in
      let sized =
        send_to-Stable env (λ x. length x.conns ≡ length b.conns)
          (sized-Stable env (length b.conns)) ci pkt b1 refl in
      (
        mark_dead-stored ci (send_to env ci pkt b1) ∙ send_to-stored ci pkt b1,
        mark_dead-IsDead ci (send_to env ci pkt b1) (subst (λ n. ci < n) (sym sized) h),
      )

  pub closing :
      (ci : ℕ) (e : Err) (b : Broker T A)
      → ci < length b.conns
      → (stored (mark_dead ci (notify_violation ci e b)) ≡ stored b)
        × IsDead ci (mark_dead ci (notify_violation ci e b))
  unfolding notify_violation on_event mark_dead modify_conn
  closing ci e b h = (refl, mark_dead-IsDead ci _ h)
