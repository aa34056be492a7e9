-- ===== src/Broker/Links/Claim.antt =====
-- What `claim_session` does to the links.
use minimosq_mqtt.Prelude.{
  ℕ, ◌+◌, ◌≡◌, refl, sym, ap, subst, ◌∙◌, ◌⊎◌, inl, inr, false, Option, none, some, [], arith,
  Option-cases, Bytes, set, get_elem?, get_elem?-set_self, get_elem?-lt,
}
use minimosq_mqtt.Core.Pool.{Pool, first_free, alloc}
use minimosq_mqtt.Core.Pool.Find.{first_free-none}
use minimosq_mqtt.Broker.Session.{Session, new_session, no_conn}
use minimosq_mqtt.Broker.State.{Env, session_evicted, Broker, session_at, is_connected}
use minimosq_mqtt.Broker.Notify.{notify_session, on_event}
use minimosq_mqtt.Broker.Teardown.{oldest_disconnected_session, release_session}
use minimosq_mqtt.Broker.Teardown.Oldest.{oldest_disconnected_session_offline}
use minimosq_mqtt.Broker.Connect.{alloc_session, claim_session}
use minimosq_mqtt.Broker.Links.{
  Links, links, slot_link, session-link, links-release_session, get_elem?-map, map-set,
}

module _ {T A : Type 0} (env : Env T A) where
  -- A new session stands in a slot that was free, without a connection.
  unfoldable pub IsClaimed : Links → Option ℕ × Broker T A → Type 0
  IsClaimed l (none, b) = links b ≡ l
  IsClaimed l (some si, b) =
      (get_elem? l.1 si ≡ some none)
      × (session_at si b ≡ some (new_session env.default_ctx))
      × (links b ≡ (l.0, set l.1 si (some ([], no_conn))))

  -- The broker with a new session in a slot.
  abbrev with_new : ℕ → Broker T A → Broker T A
  with_new si b = record b {
    sessions = record {
      slots = set b.sessions.slots si (some (new_session env.default_ctx));
      count = b.sessions.count + 1;
    };
  }

  alloc_session-full :
      (b : Broker T A) → first_free b.sessions.slots ≡ none → alloc_session env b ≡ (none, b)
  unfolding alloc_session alloc
  alloc_session-full b e = rw (e, alloc_session, alloc) refl

  alloc_session-free :
      (b : Broker T A) (si : ℕ)
      → first_free b.sessions.slots ≡ some si
      → alloc_session env b ≡ (some si, with_new si b)
  unfolding alloc_session alloc
  alloc_session-free b si e = rw (e, alloc_session, alloc) refl

  unclaimed : (b : Broker T A) → IsClaimed (links b) (none, b)
  unfolding IsClaimed
  unclaimed b = refl

  claimed :
      (b : Broker T A) (si : ℕ)
      → get_elem? b.sessions.slots si ≡ some none
      → IsClaimed (links b) (some si, with_new si b)
  unfolding IsClaimed links minimosq_mqtt.Core.Pool.at
  claimed b si e =
      let fresh = new_session env.default_ctx in
      (
        get_elem?-map slot_link b.sessions.slots si none e,
        rw
            (
              get_elem?-set_self b.sessions.slots si (some fresh)
                  (get_elem?-lt b.sessions.slots si none e),
              minimosq_mqtt.Core.Pool.at,
            )
            refl,
        ap (λ ss. ((links b).0, ss)) (map-set slot_link b.sessions.slots si (some fresh)),
      )

  pub alloc_session-IsClaimed : (b : Broker T A) → IsClaimed (links b) (alloc_session env b)
  alloc_session-IsClaimed b = elim (Option-cases (first_free b.sessions.slots)) [
    | inl e ↦ subst (IsClaimed (links b)) (sym (alloc_session-full b e)) (unclaimed b)
    | inr (si, e) ↦
        subst (IsClaimed (links b)) (sym (alloc_session-free b si e))
          (claimed b si (first_free-none b.sessions.slots si e))
  ]

  -- The links from which a session was claimed: those at the start, or less a session without a
  -- connection.
  unfoldable pub IsRoom : Links → Links → Type 0
  IsRoom l l' =
      (l' ≡ l)
      ⊎ ((sj : ℕ) × (id : Bytes) × (get_elem? l.1 sj ≡ some (some (id, no_conn)))
          × (l' ≡ (l.0, set l.1 sj none)))

  evict-links :
      (b : Broker T A) (sj : ℕ) (s : Session A)
      → get_elem? b.sessions.slots sj ≡ some (some s)
      → is_connected s ≡ false
      → IsRoom (links b) (links (release_session sj (notify_session session_evicted s b)))
  unfolding IsRoom notify_session on_event links minimosq_mqtt.Core.Pool.at
  evict-links b sj s e off =
      let here : session_at sj b ≡ some s = rw (e, minimosq_mqtt.Core.Pool.at) refl in
      inr (
        sj,
        s.client_id,
        session-link sj b s here ∙ ap (λ n. some (some (s.client_id, n))) (ground (arith, off)),
        links-release_session sj (notify_session session_evicted s b) s here,
      )

  claim_session-finds :
      (b : Broker T A) (si : ℕ)
      → first_free b.sessions.slots ≡ some si
      → claim_session env b ≡ (some si, with_new si b)
  unfolding claim_session
  claim_session-finds b si e =
      rw
        (
          ap (λ x. x.0) (alloc_session-free b si e),
          ap (λ x. x.1) (alloc_session-free b si e),
          claim_session,
        )
        refl

  claim_session-fails :
      (b : Broker T A)
      → first_free b.sessions.slots ≡ none
      → oldest_disconnected_session b ≡ none
      → claim_session env b ≡ (none, b)
  unfolding claim_session
  claim_session-fails b e o =
      rw
        (
          ap (λ x. x.0) (alloc_session-full b e),
          ap (λ x. x.1) (alloc_session-full b e),
          o,
          ap (λ x. x.1) (alloc_session-full b e),
          claim_session,
        )
        refl

  claim_session-evicts :
      (b : Broker T A) (sj : ℕ) (s : Session A)
      → first_free b.sessions.slots ≡ none
      → oldest_disconnected_session b ≡ some (sj, s)
      → claim_session env b
        ≡ alloc_session env (release_session sj (notify_session session_evicted s b))
  unfolding claim_session
  claim_session-evicts b sj s e o =
      rw
        (
          ap (λ x. x.0) (alloc_session-full b e),
          ap (λ x. x.1) (alloc_session-full b e),
          o,
          ap (λ x. x.1) (alloc_session-full b e),
          claim_session,
        )
        refl

  pub claim_session-IsClaimed :
      (b : Broker T A) → (l : Links) × IsRoom (links b) l × IsClaimed l (claim_session env b)
  unfolding IsRoom
  claim_session-IsClaimed b = elim (Option-cases (first_free b.sessions.slots)) [
    | inl e ↦ elim (oldest_disconnected_session_offline b) [
      | inl (sj, s, o, slot, off) ↦
          let b1 = release_session sj (notify_session session_evicted s b) in
          (
            links b1,
            evict-links b sj s slot off,
            subst (IsClaimed (links b1)) (sym (claim_session-evicts b sj s e o))
                (alloc_session-IsClaimed b1),
          )
      | inr (o, all) ↦ (
        links b,
        inl refl,
        subst (IsClaimed (links b)) (sym (claim_session-fails b e o)) (unclaimed b),
      )
    ]
    | inr (si, e) ↦ (
      links b,
      inl refl,
      subst (IsClaimed (links b)) (sym (claim_session-finds b si e))
          (claimed b si (first_free-none b.sessions.slots si e)),
    )
  ]
