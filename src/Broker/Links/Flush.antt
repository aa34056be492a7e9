-- ===== src/Broker/Links/Flush.antt =====
-- The deferred teardown: what it keeps, and that it ends with no connection left to close.
use minimosq_mqtt.Prelude.{
  ℕ, zero, suc, ◌+◌, ◌≤◌, ◌<◌, ◌≡◌, refl, sym, ap, subst, ◌∙◌, ◌≢◌, ◌⊎◌, inl, inr, Bool, true,
  false, none, some, arith, ◌==◌, Bool-cases, Option-cases, length, set, get_elem?, get_elem?-none,
  length-map,
}
use minimosq_mqtt.Broker.Session.{Session, no_conn}
use minimosq_mqtt.Broker.State.{
  Env, Conn, new_conn, Broker, conn_at, session_at, session_of, no_session,
}
use minimosq_mqtt.Broker.Teardown.{teardown, is_doomed, flush_sweep, flush_loop, flush_dead}
use minimosq_mqtt.Broker.Stable.{session_link}
use minimosq_mqtt.Broker.Links.{
  links, conn_link, session-link, get_elem?-map, map, link-session, get_elem?-map_inv,
}
use minimosq_mqtt.Broker.Links.Rules.{
  IsPaired, close-IsPaired, close-IsPaired_alone, active_count, active_count-length,
  active_count-close, ℕ-cases, owner_inv, IsFresh, none-IsFresh, same-IsFresh,
}
use minimosq_mqtt.Broker.Links.Calls.{links-teardown, links-teardown_alone, left_slot}
use Prim.Native.Nat.{◌≤◌}

module _ {T A : Type 0} where
  -- How `session_of` answers.
  pub session_of-cases :
      (c : Conn) (b : Broker T A)
      → ((session_of c b ≡ none) × ((c.session ≡ no_session) ⊎ (session_at c.session b ≡ none)))
        ⊎ ((s : Session A) × (session_of c b ≡ some s)
            × (c.session ≢ no_session)
            × (session_at c.session b ≡ some s))
  unfolding session_of
  session_of-cases c b = elim (Option-cases (session_at c.session b)) [
    | inl e ↦ ground (arith, e)
    | inr (s, e) ↦ elim (Bool-cases (c.session == no_session)) [
      | inl d ↦ inl (simp d refl, inl (ground (arith, d)))
      | inr d ↦ inr (s, simp d e, ground (arith, d), e)
    ]
  ]

  -- An index out of range reads as a connection that is not open.
  conn_at-cases :
      (ci : ℕ) (b : Broker T A)
      → ((get_elem? b.conns ci ≡ none) × (conn_at ci b ≡ new_conn))
        ⊎ (get_elem? (links b).0 ci ≡ some (conn_link (conn_at ci b)))
  unfolding links conn_at
  conn_at-cases ci b = elim (Option-cases (get_elem? b.conns ci)) [
    | inl e ↦ inl (e, rw (e, conn_at) refl)
    | inr (c, e) ↦ inr (rw (e, conn_at) (get_elem?-map conn_link b.conns ci c e))
  ]

  pub conn-link :
      (ci : ℕ) (b : Broker T A)
      → ci < length b.conns
      → get_elem? (links b).0 ci ≡ some (conn_link (conn_at ci b))
  conn-link ci b h = grind (arith, conn_at-cases ci b, get_elem?-none b.conns ci)

  pub link-conn :
      (ci : ℕ) (b : Broker T A) (k : Bool × ℕ)
      → get_elem? (links b).0 ci ≡ some k
      → conn_link (conn_at ci b) ≡ k
  unfolding links conn_at
  link-conn ci b k e =
      let (c, here, same) = get_elem?-map_inv conn_link b.conns ci k e in rw (here, conn_at) same

  pub active-link :
      (ci : ℕ) (b : Broker T A)
      → (conn_at ci b).active ≡ true
      → get_elem? (links b).0 ci ≡ some (true, (conn_at ci b).session)
  active-link ci b h = grind (arith, conn_at-cases ci b)

module _ {T A : Type 0} (env : Env T A) where
  pub teardown-conns :
      (ci : ℕ) (b : Broker T A)
      → (links (teardown env ci b)).0 ≡ set (links b).0 ci (false, no_session)
  teardown-conns ci b = elim (session_of-cases (conn_at ci b) b) [
    | inl (e, o) ↦ ap (λ l. l.0) (links-teardown_alone env ci b e)
    | inr (s, e, n, h) ↦ ap (λ l. l.0) (links-teardown env ci b s e h)
  ]

  teardown-IsPaired_alone :
      (ci : ℕ) (b : Broker T A)
      → (conn_at ci b).active ≡ true
      → session_of (conn_at ci b) b ≡ none
      → (conn_at ci b).session ≡ no_session
      → IsPaired (links b)
      → IsPaired (links (teardown env ci b))
  teardown-IsPaired_alone ci b d e o p =
      subst IsPaired (sym (links-teardown_alone env ci b e))
        (close-IsPaired_alone _ _ ci true p (active-link ci b d ∙ ap (λ i. some (true, i)) o))

  left_slot-IsFresh :
      (si : ℕ) (s : Session A) (b : Broker T A)
      → IsPaired (links b)
      → session_at si b ≡ some s
      → IsFresh (links b).1 si (left_slot env s)
  left_slot-IsFresh si s b p h = elim (Bool-cases s.clean_session) [
    | inl d ↦ simp d (none-IsFresh (links b).1 si)
    | inr d ↦ simp d (
        same-IsFresh (links b).1 si s.client_id s.conn no_conn p.ids_differ (session-link si b s h))
  ]

  pub teardown-IsPaired :
      (ci : ℕ) (b : Broker T A)
      → is_doomed (conn_at ci b) ≡ true
      → IsPaired (links b)
      → IsPaired (links (teardown env ci b))
  teardown-IsPaired ci b d p = elim (session_of-cases (conn_at ci b) b) [
    | inl (e, inl o) ↦ teardown-IsPaired_alone ci b (ground (arith, d)) e o p
    | inl (e, inr o) ↦ elim (ℕ-cases (conn_at ci b).session no_session) [
      | inl q ↦ teardown-IsPaired_alone ci b (ground (arith, d)) e q p
      | inr q ↦
          let (a, own) = p.conn_side ci true _ (active-link ci b (ground (arith, d))) q in
          let (id, slot) = owner_inv (links b).1 (conn_at ci b).session ci own in
          let (s, here, same) = link-session (conn_at ci b).session b (id, ci) slot in
          absurd (grind (arith, here, o))
    ]
    | inr (s, e, n, h) ↦ subst IsPaired (sym (links-teardown env ci b s e h)) (
        close-IsPaired _ _ ci true (conn_at ci b).session (some (session_link s)) (left_slot env s)
          p (active-link ci b (ground (arith, d))) (session-link (conn_at ci b).session b s h)
          (ground arith) n (left_slot-IsFresh (conn_at ci b).session s b p h))
  ]

  teardown_fewer :
      (ci : ℕ) (b : Broker T A)
      → is_doomed (conn_at ci b) ≡ true
      → suc (active_count (links (teardown env ci b)).0) ≡ active_count (links b).0
  teardown_fewer ci b d =
      ap (λ cs. suc (active_count cs)) (teardown-conns ci b)
      ∙ active_count-close (links b).0 ci (conn_at ci b).session no_session
          (active-link ci b (ground (arith, d)))

  -- What every teardown of a doomed connection keeps.
  abbrev pub Torn : (Broker T A → Type 0) → Type 0
  Torn P = (ci : ℕ) (b : Broker T A) → is_doomed (conn_at ci b) ≡ true → P b → P (teardown env ci b)

  flush_sweep-Torn :
      (P : Broker T A → Type 0) (t : Torn P) (n ci : ℕ) (again : Bool) (b : Broker T A)
      → P b
      → P (flush_sweep env n ci again b).1
  unfolding flush_sweep
  flush_sweep-Torn P t zero ci again b h = h
  flush_sweep-Torn P t (suc n) ci again b h = elim (Bool-cases (is_doomed (conn_at ci b))) [
    | inl d ↦ rw (d, flush_sweep) (flush_sweep-Torn P t n (suc ci) true _ (t ci b d h))
    | inr d ↦ rw (d, flush_sweep) (flush_sweep-Torn P t n (suc ci) again b h)
  ]

  flush_loop-Torn :
      (P : Broker T A → Type 0) (t : Torn P) (n : ℕ) (b : Broker T A) → P b → P (flush_loop env n b)
  unfolding flush_loop
  flush_loop-Torn P t zero b h = h
  flush_loop-Torn P t (suc n) b h =
      let swept = flush_sweep-Torn P t env.max_connections 0 false b h in
      elim (Bool-cases (flush_sweep env env.max_connections 0 false b).0) [
        | inl d ↦ rw (d, flush_loop) (flush_loop-Torn P t n _ swept)
        | inr d ↦ rw (d, flush_loop) swept
      ]

  pub flush_dead-Torn :
      (P : Broker T A → Type 0) (t : Torn P) (b : Broker T A) → P b → P (flush_dead env b)
  unfolding flush_dead
  flush_dead-Torn P t b h = flush_loop-Torn P t (suc env.max_connections) b h

  -- A sweep has closed a connection, or found none to close.
  flush_sweep-cases :
      (n ci : ℕ) (again : Bool) (b : Broker T A)
      → (((flush_sweep env n ci again b).0 ≡ true)
          × (active_count (links (flush_sweep env n ci again b).1).0 < active_count (links b).0))
        ⊎ ((flush_sweep env n ci again b ≡ (again, b))
            × ((j : ℕ) → ci ≤ j → j < ci + n → is_doomed (conn_at j b) ≡ false))
  unfolding flush_sweep
  flush_sweep-cases zero ci again b = inr (refl, λ j h l. absurd (omega arith))
  flush_sweep-cases (suc n) ci again b = elim (Bool-cases (is_doomed (conn_at ci b))) [
    | inl d ↦
        rw (d, flush_sweep)
          (inl (
            grind (
              arith,
              flush_sweep-cases n (suc ci) true (teardown env ci b),
              teardown_fewer ci b d,
            )))
    | inr d ↦
        rw (d, flush_sweep)
          (elim (flush_sweep-cases n (suc ci) again b) [
            | inl fewer ↦ inl fewer
            | inr (e, calm) ↦ inr (
              e,
              λ j h l. elim (ℕ-cases j ci) [
                | inl q ↦ rw q d
                | inr q ↦ calm j (omega arith) (omega arith)
              ],
            )
          ])
  ]

  -- With more rounds than open connections the loop ends on a sweep that closed none.
  flush_loop-Settled :
      (n : ℕ) (b : Broker T A)
      → active_count (links b).0 < n
      → (j : ℕ) → j < env.max_connections
      → is_doomed (conn_at j (flush_loop env n b)) ≡ false
  unfolding flush_loop
  flush_loop-Settled zero b h j l = absurd (omega arith)
  flush_loop-Settled (suc n) b h j l = elim (flush_sweep-cases env.max_connections 0 false b) [
    | inl (e, fewer) ↦ rw (e, flush_loop) (flush_loop-Settled n _ (omega (arith, fewer)) j l)
    | inr (e, calm) ↦
        rw (ap (λ x. x.0) e, ap (λ x. x.1) e, flush_loop) (calm j (omega arith) (omega arith))
  ]

  -- In a broker of `max_connections` connections no connection is open and marked dead once
  -- `flush_dead` has run, though a will that it publishes may mark more of them: the loop
  -- over the sweeps ends by itself within one sweep more than there are connections.
  pub flush_dead-Settled :
      (b : Broker T A)
      → length b.conns ≡ env.max_connections
      → (j : ℕ) → j < env.max_connections
      → (is_doomed (conn_at j (flush_dead env b)) ≡ false)
  unfolding flush_dead links
  flush_dead-Settled b e j l =
      flush_loop-Settled (suc env.max_connections) b
        (omega (arith, active_count-length (map conn_link b.conns), length-map conn_link b.conns)) j
        l

  pub flush_dead-IsPaired :
      (b : Broker T A) → IsPaired (links b) → IsPaired (links (flush_dead env b))
  flush_dead-IsPaired b p = flush_dead-Torn (λ x. IsPaired (links x)) teardown-IsPaired b p
