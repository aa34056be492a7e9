-- ===== src/Broker/Links/Going.antt =====
-- The connections that a client id is found on, until the teardown has closed them.
use minimosq_mqtt.Prelude.{
  if_keeps, ℕ, ◌<◌, ◌≡◌, refl, sym, ap, ◌∙◌, ◌≢◌, ◌⊎◌, inl, inr, true, false, none, some, arith,
  Bytes, length, get_elem?, get_elem?-set_inv, get_elem?-set_ne, get_elem?-set_self, get_elem?-lt,
}
use minimosq_mqtt.Core.Span.{view_eq, view_eq_iff}
use minimosq_mqtt.Core.Pool.{Pool, find}
use minimosq_mqtt.Core.Pool.Find.{find_slot-some, find_slot-none}
use minimosq_mqtt.Broker.Session.{Session, no_conn}
use minimosq_mqtt.Broker.State.{Env, Broker, conn_at, session_at, no_session}
use minimosq_mqtt.Broker.Send.{transport_send}
use minimosq_mqtt.Broker.Notify.{mark_dead, on_event}
use minimosq_mqtt.Broker.ClientId.{find_client}
use minimosq_mqtt.Broker.Teardown.{teardown, flush_dead, leave_session, leave_owner}
use minimosq_mqtt.Broker.Stable.{Stable}
use minimosq_mqtt.Broker.Stable.Sessions.{conn_at-modify_conn}
use minimosq_mqtt.Broker.Links.{links, link-session, session-slot, at}
use minimosq_mqtt.Broker.Links.Rules.{owner_slot, IsPaired, ℕ-cases}
use minimosq_mqtt.Broker.Links.Calls.{
  links-teardown, links-teardown_alone, left_slot, publish_will-Stable,
}
use minimosq_mqtt.Broker.Links.Flush.{
  link-conn, session_of-cases, active-link, teardown-conns, Torn, flush_dead-Torn,
  flush_dead-Settled, flush_dead-IsPaired,
}
use minimosq_mqtt.Broker.Links.Bystander.{
  stamp-conn_at, release_session-conn_at, detach-conn_at, close_transport-conn_at,
}
use minimosq_mqtt.Broker.Links.Spared.{conn_at-other, conn_at-written}

module _ {T A : Type 0} where
  -- Every session with the client id is on the connection, or on none.
  abbrev pub OnlyOn : Bytes → ℕ → Broker T A → Type 0
  OnlyOn id c0 b =
      (si c : ℕ) → get_elem? (links b).1 si ≡ some (some (id, c)) → (c ≡ no_conn) ⊎ (c ≡ c0)

  -- What `find_client` answers, told by the links.
  pub find_client-none :
      (id : Bytes) (b : Broker T A)
      → find_client id b ≡ none
      → (si c : ℕ) → get_elem? (links b).1 si ≡ some (some (id, c))
      → ⊥
  unfolding find_client find
  find_client-none id b e si c h =
      let (s, here, same) = link-session si b (id, c) h in
      let differs =
        find_slot-none (λ x. view_eq x.client_id id) b.sessions.slots e si s
          (session-slot si b s here) in
      absurd (grind (arith, differs, (view_eq_iff s.client_id id).1 (ap (λ k. k.0) same)))

  pub find_client-some :
      (id : Bytes) (b : Broker T A) (si : ℕ)
      → find_client id b ≡ some si
      → (s : Session A) × (session_at si b ≡ some s) × (s.client_id ≡ id)
  unfolding find_client find minimosq_mqtt.Core.Pool.at
  find_client-some id b si e =
      let (s, slot, good) = find_slot-some (λ x. view_eq x.client_id id) b.sessions.slots si e in
      (s, rw (slot, minimosq_mqtt.Core.Pool.at) refl, (view_eq_iff s.client_id id).0 good)

  pub dead-Stable : (env : Env T A) (c0 : ℕ) → Stable env (λ b. (conn_at c0 b).dead ≡ true)
  unfolding transport_send on_event conn_at mark_dead
  dead-Stable env c0 = record {
    quiet = record {
      event = λ e b h. h;
      sent = λ ci pkt b h. h;
      kept = λ r b h. h;
      written = λ si f b keeps still h. ap (λ c. c.dead) (conn_at-written c0 si f b) ∙ h;
      identified = λ si id b small h. ap (λ c. c.dead) (conn_at-written c0 si _ b) ∙ h;
      queued = λ si s m ms b e room h. ap (λ c. c.dead) (conn_at-written c0 si _ b) ∙ h;
      searched = λ si s b e none_left h. h;
    };
    killed = λ cj b h. elim (ℕ-cases c0 cj) [
      | inl q ↦ rw q (grind (arith, h, q, conn_at-modify_conn cj (λ c. record c { dead = true }) b))
      | inr n ↦ ap (λ c. c.dead) (conn_at-other cj c0 (λ c. record c { dead = true }) b n) ∙ h
    ];
  }

module _ {T A : Type 0} (env : Env T A) (id : Bytes) (c0 : ℕ) where
  pub teardown-OnlyOn :
      (cj : ℕ) (b : Broker T A) → OnlyOn id c0 b → OnlyOn id c0 (teardown env cj b)
  teardown-OnlyOn cj b h si c e = elim (session_of-cases (conn_at cj b) b) [
    | inl (n, o) ↦ h si c (ap (λ l. get_elem? l.1 si) (sym (links-teardown_alone env cj b n)) ∙ e)
    | inr (s, n, m, here) ↦
        elim (get_elem?-set_inv (links b).1 (conn_at cj b).session si (left_slot env s)
          (some (id, c))
          (ap (λ l. get_elem? l.1 si) (sym (links-teardown env cj b s n here)) ∙ e)) [
            | inl (q, v, l) ↦ grind (arith, v)
            | inr (q, v) ↦ h si c v
          ]
  ]

  -- Closed, or still to be closed.
  abbrev IsGoing : Broker T A → Type 0
  IsGoing b = ((conn_at c0 b).dead ≡ true) ⊎ (get_elem? (links b).0 c0 ≡ some (false, no_session))

  leave_session-dead :
      (si : ℕ) (s : Session A) (b : Broker T A)
      → (conn_at c0 b).dead ≡ true
      → (conn_at c0 (leave_session env si s b)).dead ≡ true
  unfolding leave_session
  leave_session-dead si s b h =
      let P : Broker T A → Type 0 = λ x. (conn_at c0 x).dead ≡ true in
      let stamped = ap (λ c. c.dead) (stamp-conn_at env c0 si b) ∙ h in
      let told = publish_will-Stable env P (dead-Stable env c0) si s _ stamped in
      let left = if_keeps P s.has_will told stamped in
      if_keeps P s.clean_session (ap (λ c. c.dead) (release_session-conn_at env c0 si _) ∙ left)
        left

  teardown-dead :
      (cj : ℕ) (b : Broker T A)
      → c0 ≢ cj
      → (conn_at c0 b).dead ≡ true
      → (conn_at c0 (teardown env cj b)).dead ≡ true
  unfolding teardown leave_owner
  teardown-dead cj b n h =
      let shut = ap (λ c. c.dead) (detach-conn_at env c0 cj b n) ∙ h in
      ap (λ c. c.dead) (close_transport-conn_at env c0 _ cj _)
      ∙ elim (session_of-cases (conn_at cj b) b) [
        | inl (e, o) ↦ rw e shut
        | inr (s, e, m, here) ↦ rw e (leave_session-dead (conn_at cj b).session s _ shut)
      ]

  teardown-IsGoing : Torn env IsGoing
  teardown-IsGoing cj b d h = elim (ℕ-cases c0 cj) [
    | inl q ↦ inr (
        ap (λ cs. get_elem? cs c0) (teardown-conns env cj b)
        ∙ rw q (
            get_elem?-set_self (links b).0 cj (false, no_session)
              (get_elem?-lt (links b).0 cj (true, (conn_at cj b).session)
                (active-link cj b (ground (arith, d))))))
    | inr n ↦ elim h [
      | inl dead ↦ inl (teardown-dead cj b n dead)
      | inr gone ↦ inr (
          ap (λ cs. get_elem? cs c0) (teardown-conns env cj b)
          ∙ get_elem?-set_ne (links b).0 cj c0 (false, no_session) n
          ∙ gone)
    ]
  ]

  -- After the teardown no session with the id has a connection.
  pub flush_dead-Free :
      (b : Broker T A)
      → length b.conns ≡ env.max_connections
      → IsPaired (links b)
      → OnlyOn id c0 b
      → IsGoing b
      → c0 < env.max_connections
      → (si c : ℕ) → get_elem? (links (flush_dead env b)).1 si ≡ some (some (id, c))
      → c ≡ no_conn
  flush_dead-Free b e p only going l si c h =
      let b1 = flush_dead env b in
      let q = flush_dead-IsPaired env b p in
      let on = flush_dead-Torn env (OnlyOn id c0) (λ cj x d. teardown-OnlyOn cj x) b only si c h in
      let gone = flush_dead-Torn env IsGoing teardown-IsGoing b going in
      let calm = flush_dead-Settled env b e c0 l in
      elim (ℕ-cases c no_conn) [
        | inl o ↦ o
        | inr o ↦
            let here = q.session_side si c (owner_slot (links b1).1 si (some (id, c)) h) o in
            let open_conn = link-conn c b1 (true, si) here in
            absurd (grind (arith, o, on, here, open_conn, gone, calm))
      ]
