-- ===== src/Broker/Links/Spared.antt =====
-- A connection that is open, not dead and without a session is not touched by the teardown of others.
use minimosq_mqtt.Prelude.{
  ℕ, ◌≡◌, refl, ap, subst, ◌∙◌, ◌≢◌, ◌⊎◌, inl, inr, true, false, not, ◌||◌, none, some, arith,
  if_keeps, Bool-cases, Option-cases, Bytes, get_elem?, get_elem?-set_ne,
}
use minimosq_mqtt.Protocol.Constants.{QoS, at_most_once}
use minimosq_mqtt.Protocol.Packets.Parse.{is_qos_0}
use minimosq_mqtt.Protocol.Packets.Build.{build_publish}
use minimosq_mqtt.Broker.Delivery.{out_cap}
use minimosq_mqtt.Broker.Send.{transport_send, is_online}
use minimosq_mqtt.Broker.Session.{Session}
use minimosq_mqtt.Broker.State.{
  Env, Conn, Broker, modify_conn, modify_session, put_session, conn_at, session_at, no_session,
  new_conn,
}
use minimosq_mqtt.Broker.Notify.{mark_dead, on_event}
use minimosq_mqtt.Broker.Send.{conn_index, may_send, send_to}
use minimosq_mqtt.Broker.Routing.{deliver_to, route_to, route_publish}
use minimosq_mqtt.Broker.Teardown.{publish_will}
use minimosq_mqtt.Broker.Stable.{
  Quiet, session_link, notify_denied-Quiet, notify_conn-Quiet, transport_send-Quiet,
}
use minimosq_mqtt.Broker.Stable.Queue.{enqueue-Quiet}
use minimosq_mqtt.Broker.Stable.Route.{apply_retain-Quiet, for_each_session-Stable}
use minimosq_mqtt.Broker.Links.{link-session_set, Links, links, links-Stable, session-link}
use minimosq_mqtt.Broker.Links.Rules.{owner, owner_slot, owner-lt, IsPaired}

module _ {T A : Type 0} where
  pub conn_at-other :
      (cj ci : ℕ) (f : Conn → Conn) (b : Broker T A)
      → ci ≢ cj
      → conn_at ci (modify_conn cj f b) ≡ conn_at ci b
  unfolding modify_conn conn_at
  conn_at-other cj ci f b n =
      ap (λ o. elim o as (λ _. Conn) [ none ↦ new_conn | some c ↦ c ])
        (get_elem?-set_ne b.conns cj ci (f (conn_at cj b)) n)

  -- The links are known and the connection is as it was.
  abbrev pub Spares : Links → ℕ → Conn → Broker T A → Type 0
  Spares l ci c b = (links b ≡ l) × (conn_at ci b ≡ c)

  modify_session-conns :
      (si : ℕ) (f : Session A → Session A) (b : Broker T A)
      → (modify_session si f b).conns ≡ b.conns
  unfolding modify_session put_session
  modify_session-conns si f b = elim (Option-cases (session_at si b)) [
    | inl e ↦ rw (e, modify_session) refl
    | inr (s, e) ↦ rw (e, modify_session) refl
  ]

  pub conn_at-written :
      (ci si : ℕ) (f : Session A → Session A) (b : Broker T A)
      → conn_at ci (modify_session si f b) ≡ conn_at ci b
  unfolding conn_at
  conn_at-written ci si f b =
      ap (λ cs. elim (get_elem? {A = Conn} cs ci) as (λ _. Conn) [ none ↦ new_conn | some c ↦ c ])
        (modify_session-conns si f b)

  pub Spares-Quiet : (env : Env T A) (l : Links) (ci : ℕ) (c : Conn) → Quiet env (Spares l ci c)
  unfolding transport_send on_event conn_at links
  Spares-Quiet env l ci c = record {
    event = λ e b h. h;
    sent = λ ci pkt b h. h;
    kept = λ r b h. h;
    written = λ si f b keeps still h.
        (link-session_set si f b keeps ∙ h.0, conn_at-written ci si f b ∙ h.1);
    identified = λ si id b small h. (
      link-session_set si (λ t. record t { last_packet_id = id }) b (λ t. refl) ∙ h.0,
      conn_at-written ci si _ b ∙ h.1,
    );
    queued = λ si s m ms b e room h. (
      link-session_set si (λ t. record t { pending = ms }) b (λ t. refl) ∙ h.0,
      conn_at-written ci si _ b ∙ h.1,
    );
    searched = λ si s b e none_left h. h;
  }

module _ {T A : Type 0} (env : Env T A) (l : Links) (ci : ℕ) (c : Conn) (p : IsPaired l)
    (alone : get_elem? l.0 ci ≡ some (true, no_session)) where
  -- A send to the connection of a session is not a send to this one.
  other_conn :
      (si : ℕ) (s : Session A) (b : Broker T A)
      → session_at si b ≡ some s
      → links b ≡ l
      → (conn_index env s ≡ env.max_connections) ⊎ (ci ≢ conn_index env s)
  unfolding conn_index
  other_conn si s b e h =
      let own : owner l.1 si ≡ some s.conn =
        subst (λ k. owner k.1 si ≡ some s.conn) h
          (owner_slot (links b).1 si (some (session_link s)) (session-link si b s e)) in
      grind (arith, p.session_side si s.conn own, alone, owner-lt l.1 si s.conn own, p.few_sessions)

  -- No packet goes to an index out of range.
  closed_conn : (pkt : Bytes) (b : Broker T A) → may_send env env.max_connections pkt b ≡ false
  unfolding may_send
  closed_conn pkt b = ground arith

  pub killed-Spares :
      (cj : ℕ) → ci ≢ cj → (b : Broker T A) → Spares l ci c b → Spares l ci c (mark_dead cj b)
  unfolding mark_dead
  killed-Spares cj n b h = (
    (links-Stable env l).killed cj b h.0,
    conn_at-other cj ci (λ c. record c { dead = true }) b n ∙ h.1,
  )

  send_to-Spares :
      (si : ℕ) (s : Session A) (pkt : Bytes) (b : Broker T A)
      → session_at si b ≡ some s
      → Spares l ci c b
      → Spares l ci c (send_to env (conn_index env s) pkt b)
  unfolding send_to
  send_to-Spares si s pkt b e h = elim (other_conn si s b e h.0) [
    | inl out ↦ grind (arith, out, closed_conn pkt b)
    | inr n ↦ grind (
      arith,
      killed-Spares (conn_index env s) n,
      notify_conn-Quiet env (Spares l ci c) (Spares-Quiet env l ci c),
      transport_send-Quiet env (Spares l ci c) (Spares-Quiet env l ci c),
    )
  ]

  deliver_to-Spares :
      (t x : Bytes) (q : QoS) (si : ℕ) (s : Session A) (b : Broker T A)
      → session_at si b ≡ some s
      → Spares l ci c b
      → Spares l ci c (deliver_to env t x q si s b)
  unfolding deliver_to
  deliver_to-Spares t x q si s b e h =
      let sent =
        send_to-Spares si s (build_publish (out_cap env) t x at_most_once false false 0) b e h in
      let queued =
        enqueue-Quiet env (Spares l ci c) (Spares-Quiet env l ci c) si s t x q false b e h in
      elim (Bool-cases (is_qos_0 q)) [
        | inl d ↦ rw (d, deliver_to) (if_keeps (Spares l ci c) (is_online env s b) sent h)
        | inr d ↦
            rw (d, deliver_to)
              (if_keeps (Spares l ci c) (is_online env s b || not s.clean_session) queued h)
      ]

  route_to-Spares :
      (t x : Bytes) (q : QoS) (si : ℕ) (s : Session A) (b : Broker T A)
      → session_at si b ≡ some s
      → Spares l ci c b
      → Spares l ci c (route_to env t x q si s b)
  unfolding route_to
  route_to-Spares t x q si s b e h =
      grind (
        arith,
        deliver_to-Spares,
        notify_denied-Quiet env (Spares l ci c) (Spares-Quiet env l ci c),
      )

  route_publish-Spares :
      (t x : Bytes) (q : QoS) (b : Broker T A)
      → Spares l ci c b
      → Spares l ci c (route_publish env t x q b)
  unfolding route_publish
  route_publish-Spares t x q b =
      for_each_session-Stable (Spares l ci c) (route_to env t x q)
        (λ si s b1 e h. route_to-Spares t x q si s b1 e h) b

  pub publish_will-Spares :
      (si : ℕ) (s : Session A) (b : Broker T A)
      → Spares l ci c b
      → Spares l ci c (publish_will env si s b)
  unfolding publish_will
  publish_will-Spares si s b h =
      let disarmed =
        (Spares-Quiet env l ci c).written si (λ t. record t { has_will = false }) b (λ t. refl)
          (λ t. (omega arith, refl)) h in
      grind (
        arith,
        apply_retain-Quiet env (Spares l ci c) (Spares-Quiet env l ci c),
        route_publish-Spares,
      )
