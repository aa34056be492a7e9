-- ===== src/Broker/Links/Open.antt =====
-- The session of an accepted CONNECT: found, or claimed from the pool.
use minimosq_mqtt.Prelude.{
  if_keeps, ℕ, ◌≤◌, ◌≡◌, refl, sym, ap, subst, ◌∙◌, inl, inr, true, false, Option, none, some, [],
  arith, Option-cases, Bytes, length, set, get_elem?, get_elem?-set_inv, set-set,
}
use minimosq_mqtt.Core.StaticVector.{assigned, assign}
use minimosq_mqtt.Protocol.Constants.{ConnackCode, server_unavailable}
use minimosq_mqtt.Protocol.Packets.Build.{build_connack}
use minimosq_mqtt.Broker.Send.{send_to}
use minimosq_mqtt.Broker.Delivery.{out_cap}
use minimosq_mqtt.Protocol.Packets.Parse.{ConnectPacket}
use minimosq_mqtt.Broker.Session.{Session, new_session, no_conn}
use minimosq_mqtt.Broker.State.{Env, Broker, modify_session, conn_at, session_at, no_session}
use minimosq_mqtt.Broker.Notify.{notify_refused}
use minimosq_mqtt.Broker.ClientId.{find_client}
use minimosq_mqtt.Broker.Teardown.{release_session}
use minimosq_mqtt.Broker.Connect.{
  claim_session, fresh_connect, open_session, accept_connect, take_over, refuse,
}
use minimosq_mqtt.Broker.Acks.Redelivery.{at-modified}
use minimosq_mqtt.Broker.Stable.{session_link, notify_refused-Quiet, send_to-Stable}
use minimosq_mqtt.Broker.Links.{
  Links, links, links-Stable, session-link, links-release_session, links-modify_session,
}
use minimosq_mqtt.Broker.Links.Rules.{IsPaired, IsFresh, slot-IsPaired, none-IsFresh}
use minimosq_mqtt.Broker.Links.Attach.{accept_connect-IsAttached, IsAttached}
use minimosq_mqtt.Broker.Links.TakeOver.{take_over-IsFree, take_over-IsBystander}
use minimosq_mqtt.Broker.Links.Going.{find_client-none, find_client-some}
use minimosq_mqtt.Broker.Links.Claim.{IsClaimed, IsRoom, claim_session-IsClaimed}

assigned_fits : (cap : ℕ) (old id : Bytes) → length id ≤ cap → assigned cap old id ≡ id
unfolding assigned assign
assigned_fits cap old id h = ground (arith, h)

module _ {T A : Type 0} (env : Env T A) where
  -- No session has the id.
  IsUnused : Bytes → Links → Type 0
  IsUnused id l = (si c : ℕ) → get_elem? l.1 si ≡ some (some (id, c)) → ⊥

  room-kept :
      (l l' : Links) (id : Bytes)
      → IsRoom env l l'
      → IsPaired l
      → IsUnused id l
      → IsPaired l' × IsUnused id l' × (l'.0 ≡ l.0)
  unfolding IsRoom IsUnused
  room-kept l l' id (inl e) p unused =
      (subst IsPaired (sym e) p, subst (IsUnused id) (sym e) unused, ap (λ k. k.0) e)
  room-kept l l' id (inr (sj, id', here, e)) p unused = (
    subst IsPaired (sym e) (
        slot-IsPaired l.0 l.1 sj (some (id', no_conn)) none p here (inr refl) (inl refl)
          (none-IsFresh l.1 sj)),
    subst (IsUnused id) (sym e) (λ si c h.
        elim (get_elem?-set_inv l.1 sj si none (some (id, c)) h) [
          | inl (q, v, n) ↦ absurd (grind (arith, v))
          | inr (q, v) ↦ unused si c v
        ]),
    ap (λ k. k.0) e,
  )

  named : ℕ → Bytes → Broker T A → Broker T A
  named si id b =
      modify_session si
        (λ s. record s { client_id = assigned env.max_client_id_len s.client_id id }) b

  -- The claimed session gets its client id.
  named-IsPaired :
      (l : Links) (si : ℕ) (id : Bytes) (b : Broker T A)
      → IsPaired l
      → IsUnused id l
      → length id ≤ env.max_client_id_len
      → IsClaimed env l (some si, b)
      → IsPaired (links (named si id b))
        × ((links (named si id b)).0 ≡ l.0)
        × ((s : Session A) × (session_at si (named si id b) ≡ some s) × (s.conn ≡ no_conn))
  unfolding IsClaimed IsUnused named
  named-IsPaired l si id b p unused fits (slot, here, e) =
      let f : Session A → Session A =
        λ s. record s { client_id = assigned env.max_client_id_len s.client_id id } in
      let fresh = new_session env.default_ctx in
      let exact : (f fresh).client_id ≡ id = assigned_fits env.max_client_id_len [] id fits in
      let all : links (named si id b) ≡ (l.0, set l.1 si (some (id, no_conn))) =
        links-modify_session si f b fresh here
        ∙ ap (λ k. ((links b).0, set (links b).1 si (some (k, no_conn)))) exact
        ∙ ap (λ x. (x.0, set x.1 si (some (id, no_conn)))) e
        ∙ ap (λ ss. (l.0, ss)) (set-set l.1 si (some ([], no_conn)) (some (id, no_conn))) in
      let one : IsFresh l.1 si (some (id, no_conn)) =
        λ id' x q j y d. absurd (unused j y (grind (arith, q, d))) in
      (
        subst IsPaired (sym all)
            (slot-IsPaired l.0 l.1 si none (some (id, no_conn)) p slot (inl refl) (inr refl) one),
        ap (λ k. k.0) all,
        (f fresh, at-modified env si f b fresh here, refl),
      )

  pub refuse-links :
      (ci : ℕ) (code : ConnackCode) (id : Bytes) (b : Broker T A)
      → links (refuse env ci code id b) ≡ links b
  unfolding refuse
  refuse-links ci code id b =
      let P : Broker T A → Type 0 = λ x. links x ≡ links b in
      let v = links-Stable env (links b) in
      let b1 = notify_refused ci id code b in
      let told = notify_refused-Quiet env P v.quiet ci id code b refl in
      let pkt = build_connack (out_cap env) false code in
      v.killed ci (send_to env ci pkt b1) (send_to-Stable env P v ci pkt b1 told)

  -- What `fresh_connect` does with the claim.
  connected : ConnectPacket → ℕ → A → Bytes → Option ℕ × Broker T A → Broker T A
  connected p ci ctx id (none, b) = refuse env ci server_unavailable id b
  connected p ci ctx id (some si, b) = accept_connect env p ci ctx si false (named si id b)

  connected-IsAttached :
      (p : ConnectPacket) (ci : ℕ) (ctx : A) (id : Bytes) (l : Links) (r : Option ℕ × Broker T A)
      → length id ≤ env.max_client_id_len
      → IsPaired l
      → IsUnused id l
      → get_elem? l.0 ci ≡ some (true, no_session)
      → IsClaimed env l r
      → IsAttached ci (connected p ci ctx id r)
  unfolding connected IsClaimed
  connected-IsAttached p ci ctx id l (none, b) fits q unused alone e =
      let same = refuse-links ci server_unavailable id b ∙ e in
      (subst IsPaired (sym same) q, (no_session, ap (λ k. get_elem? k.0 ci) same ∙ alone))
  connected-IsAttached p ci ctx id l (some si, b) fits q unused alone e =
      let (paired, conns, (s, here, off)) = named-IsPaired l si id b q unused fits e in
      accept_connect-IsAttached env p ci ctx si false (named si id b) s paired
        (ap (λ cs. get_elem? cs ci) conns ∙ alone) here off

  fresh_is_connected :
      (p : ConnectPacket) (ci : ℕ) (ctx : A) (id : Bytes) (b : Broker T A)
      → IsAttached ci (connected p ci ctx id (claim_session env b))
      → IsAttached ci (fresh_connect env p ci ctx id b)
  unfolding fresh_connect connected named
  fresh_is_connected p ci ctx id b h = elim (Option-cases (claim_session env b).0) [
    | inl e ↦ rw (e, fresh_connect) (rw (e, connected) at h)
    | inr (si, e) ↦ rw (e, fresh_connect) (rw (e, connected) at h)
  ]

  find_client-IsUnused :
      (id : Bytes) (b : Broker T A) → find_client id b ≡ none → IsUnused id (links b)
  unfolding IsUnused
  find_client-IsUnused id b e = find_client-none id b e

  fresh_connect-IsAttached :
      (p : ConnectPacket) (ci : ℕ) (ctx : A) (id : Bytes) (b : Broker T A)
      → length id ≤ env.max_client_id_len
      → IsPaired (links b)
      → IsUnused id (links b)
      → get_elem? (links b).0 ci ≡ some (true, no_session)
      → IsAttached ci (fresh_connect env p ci ctx id b)
  unfolding fresh_connect connected named
  fresh_connect-IsAttached p ci ctx id b fits q unused alone =
      let (l, room, claim) = claim_session-IsClaimed env b in
      let (q1, unused1, conns) = room-kept (links b) l id room q unused in
      fresh_is_connected p ci ctx id b (
        connected-IsAttached p ci ctx id l (claim_session env b) fits q1 unused1
          (ap (λ cs. get_elem? cs ci) conns ∙ alone) claim)

  -- A clean session in place of one with the id.
  replaced-IsAttached :
      (p : ConnectPacket) (ci : ℕ) (ctx : A) (id : Bytes) (si : ℕ) (s : Session A) (b : Broker T A)
      → length id ≤ env.max_client_id_len
      → IsPaired (links b)
      → session_at si b ≡ some s
      → s.client_id ≡ id
      → s.conn ≡ no_conn
      → get_elem? (links b).0 ci ≡ some (true, no_session)
      → IsAttached ci (fresh_connect env p ci ctx id (release_session si b))
  unfolding IsUnused
  replaced-IsAttached p ci ctx id si s b fits q here same off alone =
      let l = links-release_session si b s here in
      let at_si = session-link si b s here in
      let paired =
        slot-IsPaired (links b).0 (links b).1 si (some (session_link s)) none q at_si
          (inr (ap some off)) (inl refl) (none-IsFresh (links b).1 si) in
      let unused : IsUnused id ((links b).0, set (links b).1 si none) = λ sj c h.
        elim (get_elem?-set_inv (links b).1 si sj none (some (id, c)) h) [
          | inl (j, v, n) ↦ absurd (grind (arith, v))
          | inr (n, v) ↦ absurd (
              n (q.ids_differ sj si id c s.conn v (at_si ∙ ap (λ x. some (some (x, s.conn))) same)))
        ] in
      fresh_connect-IsAttached p ci ctx id (release_session si b) fits
        (subst IsPaired (sym l) paired) (subst (IsUnused id) (sym l) unused)
        (ap (λ k. get_elem? k.0 ci) l ∙ alone)

  pub open_session-IsAttached :
      (p : ConnectPacket) (ci : ℕ) (ctx : A) (id : Bytes) (b : Broker T A)
      → length b.conns ≡ env.max_connections
      → length id ≤ env.max_client_id_len
      → IsPaired (links b)
      → get_elem? (links b).0 ci ≡ some (true, no_session)
      → (conn_at ci b).dead ≡ false
      → IsAttached ci (open_session env p ci ctx id b)
  unfolding open_session
  open_session-IsAttached p ci ctx id b e fits q alone alive =
      let b1 = take_over env id b in
      let (q1, free) = take_over-IsFree env id b e q in
      let alone1 = (take_over-IsBystander env id ci (conn_at ci b) alive b (q, alone, refl)).1 in
      elim (Option-cases (find_client id b1)) [
        | inl f ↦
            rw (f, open_session)
              (fresh_connect-IsAttached p ci ctx id b1 fits q1 (find_client-IsUnused id b1 f)
                alone1)
        | inr (si, f) ↦
            let (s, here, same) = find_client-some id b1 si f in
            let at_si = session-link si b1 s here ∙ ap (λ x. some (some (x, s.conn))) same in
            let off = free si s.conn at_si in
            rw (f, open_session)
              (if_keeps (IsAttached ci) p.clean_session
                (replaced-IsAttached p ci ctx id si s b1 fits q1 here same off alone1)
                (accept_connect-IsAttached env p ci ctx si true b1 s q1 alone1 here off))
      ]
