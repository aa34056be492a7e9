-- ===== src/Broker/Teardown/Oldest.antt =====
-- include/minimosq/broker/broker.hpp: which session gives way when the pool is full.
use minimosq_mqtt.Prelude.{
  ℕ, zero, suc, ◌+◌, ◌≡◌, sym, ap, subst, ◌∙◌, ◌⊎◌, inl, inr, true, false, Option, none, some, List,
  [], ◌∷◌, arith, Option-cases, get_elem?,
}
use minimosq_mqtt.Broker.Session.{Session}
use minimosq_mqtt.Broker.State.{Broker, is_connected}
use minimosq_mqtt.Broker.Teardown.{older, oldest_from, oldest_disconnected_session}

module _ {ℓ} {A : Type ℓ} where
  -- A visit keeps the candidate or takes the session visited.
  older-cases :
      (si : ℕ) (t : Session A) (acc : Option (ℕ × Session A)) (r : ℕ × Session A)
      → older si t acc ≡ some r
      → (acc ≡ some r) ⊎ (((si, t) ≡ r) × (is_connected t ≡ false))
  older-cases si t none r h = ground (arith, h)
  older-cases si t (some c) r h = ground (arith, h)

  -- A visit that finds none has met a connected session.
  older-none :
      (si : ℕ) (t : Session A) (acc : Option (ℕ × Session A))
      → older si t acc ≡ none
      → (acc ≡ none) × (is_connected t ≡ true)
  older-none si t none h = ground (arith, h)
  older-none si t (some c) h = ground (arith, h)

  -- All slots, from the first and the others.
  later-slots :
      (o : Option (Session A)) (slots : List (Option (Session A)))
      → ((s : Session A) → o ≡ some s → is_connected s ≡ true)
      → ((i : ℕ) (s : Session A) → get_elem? slots i ≡ some (some s) → is_connected s ≡ true)
      → (i : ℕ) (s : Session A) → get_elem? (o ∷ slots) i ≡ some (some s)
      → is_connected s ≡ true
  later-slots o slots h all zero s e = h s (grind (arith, e))
  later-slots o slots h all (suc i) s e = all i s e

  -- A candidate is a disconnected session, of the slots seen or of those to come.
  oldest_from-some :
      (si : ℕ) (slots : List (Option (Session A))) (acc : Option (ℕ × Session A)) (i : ℕ)
      (s : Session A)
      → oldest_from si slots acc ≡ some (i, s)
      → (acc ≡ some (i, s))
        ⊎ ((k : ℕ) × (i ≡ si + k) × (get_elem? slots k ≡ some (some s)) × (is_connected s ≡ false))
  unfolding oldest_from
  oldest_from-some si [] acc i s h = inl h
  oldest_from-some si (none ∷ slots) acc i s h = elim (oldest_from-some (suc si) slots acc i s h) [
    | inl e ↦ inl e
    | inr (k, e, at_k, off) ↦ inr (suc k, omega (arith, e), at_k, off)
  ]
  oldest_from-some si (some t ∷ slots) acc i s h =
      elim (oldest_from-some (suc si) slots (older si t acc) i s h) [
        | inl e ↦ elim (older-cases si t acc (i, s) e) [
          | inl before ↦ inl before
          | inr (here, off) ↦ inr (
            0,
            omega (arith, ap (λ x. x.0) here),
            ap (λ x. some (some x.1)) here,
            ap (λ x. is_connected x.1) (sym here) ∙ off,
          )
        ]
        | inr (k, e, at_k, off) ↦ inr (suc k, omega (arith, e), at_k, off)
      ]

  -- Without one, every live session is connected.
  oldest_from-none :
      (si : ℕ) (slots : List (Option (Session A))) (acc : Option (ℕ × Session A))
      → oldest_from si slots acc ≡ none
      → (acc ≡ none)
        × ((i : ℕ) (s : Session A) → get_elem? slots i ≡ some (some s) → is_connected s ≡ true)
  unfolding oldest_from
  oldest_from-none si [] acc h = (h, λ i s e. cc)
  oldest_from-none si (none ∷ slots) acc h =
      (let (e, all) = oldest_from-none (suc si) slots acc h in
        (e, later-slots none slots (λ t d. absurd (cc)) all))
  oldest_from-none si (some t ∷ slots) acc h =
      (let (e, all) = oldest_from-none (suc si) slots (older si t acc) h in
        (
          (older-none si t acc e).0,
          later-slots (some t) slots (λ s d. grind (arith, d, (older-none si t acc e).1)) all,
        ))

module _ {T A : Type 0} where
  -- `oldest_disconnected_session` gives the index of a live session without a connection, or
  -- gives none and every live session has a connection: eviction never takes the session of a
  -- client that is connected.
  pub oldest_disconnected_session_offline :
      (b : Broker T A)
      → ((i : ℕ) × (s : Session A) × (oldest_disconnected_session b ≡ some (i, s))
          × (get_elem? b.sessions.slots i ≡ some (some s))
          × (is_connected s ≡ false))
        ⊎ ((oldest_disconnected_session b ≡ none)
            × ((i : ℕ) (s : Session A)
                → get_elem? b.sessions.slots i ≡ some (some s)
                → is_connected s ≡ true))
  unfolding oldest_disconnected_session
  oldest_disconnected_session_offline b = elim (Option-cases (oldest_disconnected_session b)) [
    | inl e ↦ inr (e, (oldest_from-none 0 b.sessions.slots none e).1)
    | inr ((i, s), e) ↦ elim (oldest_from-some 0 b.sessions.slots none i s e) [
      | inl d ↦ absurd (cc)
      | inr (k, d, at_k, off) ↦ inl (
        i,
        s,
        e,
        subst (λ j. get_elem? b.sessions.slots j ≡ some (some s)) {x = k} {y = i} (omega (arith, d))
            at_k,
        off,
      )
    ]
  ]
