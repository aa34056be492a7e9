-- ===== src/Broker/Links/Bystander.antt =====
-- The deferred teardown leaves a connection alone that is open, not dead and without a session.
use minimosq_mqtt.Prelude.{
  if_keeps, ℕ, ◌≡◌, refl, ap, ◌∙◌, ◌≢◌, inl, inr, Bool, true, false, Option, some, arith, Bytes,
  set, get_elem?, get_elem?-set_ne,
}
use minimosq_mqtt.Broker.Session.{Session, no_conn}
use minimosq_mqtt.Broker.State.{
  Env, connection_closed, Conn, Broker, modify_conn, conn_at, session_at, no_session,
}
use minimosq_mqtt.Broker.Notify.{on_event, notify_conn}
use minimosq_mqtt.Broker.Teardown.{
  teardown, flush_dead, leave_session, leave_owner, close_transport, detach, stamp, release_session,
}
use minimosq_mqtt.Broker.Stable.{session_link}
use minimosq_mqtt.Broker.Links.{Links, links, session-link}
use minimosq_mqtt.Broker.Links.Rules.{IsPaired, close-IsPaired, same-IsFresh}
use minimosq_mqtt.Broker.Links.Calls.{links-stamp, links-detach}
use minimosq_mqtt.Broker.Links.Flush.{
  session_of-cases, active-link, teardown-conns, teardown-IsPaired, Torn, flush_dead-Torn,
}
use minimosq_mqtt.Broker.Links.Spared.{conn_at-other, conn_at-written, publish_will-Spares}

module _ {T A : Type 0} (env : Env T A) (ci : ℕ) where
  pub stamp-conn_at : (si : ℕ) (b : Broker T A) → conn_at ci (stamp env si b) ≡ conn_at ci b
  unfolding stamp conn_at
  stamp-conn_at si b = conn_at-written ci si _ _

  pub release_session-conn_at :
      (si : ℕ) (b : Broker T A) → conn_at ci (release_session si b) ≡ conn_at ci b
  unfolding release_session conn_at
  release_session-conn_at si b = refl

  pub detach-conn_at :
      (cj : ℕ) (b : Broker T A)
      → ci ≢ cj
      → conn_at ci (detach env cj (notify_conn env connection_closed cj b)) ≡ conn_at ci b
  unfolding detach notify_conn on_event conn_at
  detach-conn_at cj b n = conn_at-other cj ci _ _ n

  pub close_transport-conn_at :
      (n : Bool) (cj : ℕ) (b : Broker T A) → conn_at ci (close_transport env n cj b) ≡ conn_at ci b
  unfolding close_transport conn_at
  close_transport-conn_at true cj b = refl
  close_transport-conn_at false cj b = refl

module _ {T A : Type 0} (env : Env T A) (ci : ℕ) (c : Conn) (alive : c.dead ≡ false) where
  abbrev pub IsBystander : Broker T A → Type 0
  IsBystander b =
      IsPaired (links b) × (get_elem? (links b).0 ci ≡ some (true, no_session)) × (conn_at ci b ≡ c)

  leave_session-bystander :
      (si : ℕ) (s : Session A) (b : Broker T A) (l : Links)
      → IsPaired l
      → get_elem? l.0 ci ≡ some (true, no_session)
      → links (stamp env si b) ≡ l
      → conn_at ci b ≡ c
      → conn_at ci (leave_session env si s b) ≡ c
  unfolding leave_session
  leave_session-bystander si s b l p alone e h =
      let b1 = stamp env si b in
      let stamped : conn_at ci b1 ≡ c = stamp-conn_at env ci si b ∙ h in
      let told = (publish_will-Spares env l ci c p alone si s b1 (e, stamped)).1 in
      let P : Broker T A → Type 0 = λ x. conn_at ci x ≡ c in
      let left = if_keeps P s.has_will told stamped in
      if_keeps P s.clean_session (release_session-conn_at env ci si _ ∙ left) left

  owner_left :
      (cj : ℕ) (b : Broker T A) (s : Session A)
      → ci ≢ cj
      → (conn_at cj b).active ≡ true
      → (conn_at cj b).session ≢ no_session
      → session_at (conn_at cj b).session b ≡ some s
      → IsBystander b
      → conn_at ci (
          leave_session env
            (conn_at cj b).session
            s
            (detach env cj (notify_conn env connection_closed cj b)))
        ≡ c
  unfolding detach notify_conn on_event modify_conn
  owner_left cj b s n act m here (p, alone, h) =
      let b1 = detach env cj (notify_conn env connection_closed cj b) in
      let si = (conn_at cj b).session in
      let gone : Option (Bytes × ℕ) = some (s.client_id, no_conn) in
      leave_session-bystander si s b1
        (set (links b).0 cj (false, no_session), set (links b).1 si gone)
        (close-IsPaired _ _ cj true si (some (session_link s)) gone p (active-link cj b act)
          (session-link si b s here) (inr refl) m
          (same-IsFresh (links b).1 si s.client_id s.conn no_conn p.ids_differ
            (session-link si b s here)))
        (get_elem?-set_ne (links b).0 cj ci (false, no_session) n ∙ alone)
        (links-stamp env si b1 s here ∙ ap (λ k. (k.0, set k.1 si gone)) (links-detach env cj b))
        (detach-conn_at env ci cj b n ∙ h)

  teardown-conn_at :
      (cj : ℕ) (b : Broker T A)
      → ci ≢ cj
      → (conn_at cj b).active ≡ true
      → IsBystander b
      → conn_at ci (teardown env cj b) ≡ c
  unfolding teardown leave_owner detach notify_conn on_event modify_conn
  teardown-conn_at cj b n act (p, alone, h) =
      close_transport-conn_at env ci _ cj _ ∙ elim (session_of-cases (conn_at cj b) b) [
        | inl (e, o) ↦ rw (e) (detach-conn_at env ci cj b n ∙ h)
        | inr (s, e, m, here) ↦ rw (e) (owner_left cj b s n act m here (p, alone, h))
      ]

  teardown-IsBystander : Torn env IsBystander
  teardown-IsBystander cj b d (p, alone, h) =
      let n : ci ≢ cj = λ q. absurd (grind (arith, d, q, h, alive)) in
      (
        teardown-IsPaired env cj b d p,
        ap (λ cs. get_elem? cs ci) (teardown-conns env cj b)
            ∙ get_elem?-set_ne (links b).0 cj ci (false, no_session) n
            ∙ alone,
        teardown-conn_at cj b n (ground (arith, d)) (p, alone, h),
      )

  pub flush_dead-IsBystander : (b : Broker T A) → IsBystander b → IsBystander (flush_dead env b)
  flush_dead-IsBystander b h = flush_dead-Torn env IsBystander teardown-IsBystander b h
