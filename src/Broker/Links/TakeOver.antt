-- ===== src/Broker/Links/TakeOver.antt =====
-- A client id is free of its connection once `take_over` has run.
use minimosq_mqtt.Prelude.{
  ℕ, ◌<◌, ◌≡◌, refl, sym, ap, subst, ◌∙◌, ◌≢◌, inl, inr, true, false, some, arith, Bool-cases,
  Option-cases, Bytes, length, get_elem?, get_elem?-lt, length-map,
}
use minimosq_mqtt.Broker.Session.{Session, no_conn}
use minimosq_mqtt.Broker.State.{
  Env, Conn, session_taken_over, Broker, conn_at, session_at, is_connected,
}
use minimosq_mqtt.Broker.Notify.{mark_dead, on_event, notify_session}
use minimosq_mqtt.Broker.ClientId.{find_client}
use minimosq_mqtt.Broker.Teardown.{flush_dead}
use minimosq_mqtt.Broker.Connect.{take_over}
use minimosq_mqtt.Broker.Stable.{session_link}
use minimosq_mqtt.Broker.Stable.Sessions.{sized-Stable, mark_dead-IsDead}
use minimosq_mqtt.Broker.Links.{links, links-Stable, session-link, conn_link}
use minimosq_mqtt.Broker.Links.Rules.{owner_slot, owner-lt, IsPaired}
use minimosq_mqtt.Broker.Links.Flush.{flush_dead-IsPaired}
use minimosq_mqtt.Broker.Links.Bystander.{IsBystander, flush_dead-IsBystander}
use minimosq_mqtt.Broker.Links.Spared.{Spares-Quiet, killed-Spares}
use minimosq_mqtt.Broker.Links.Going.{OnlyOn, find_client-none, find_client-some, flush_dead-Free}

module _ {T A : Type 0} (env : Env T A) (id : Bytes) where
  -- No session with the id has a connection.
  abbrev pub IsFree : Broker T A → Type 0
  IsFree b = (si c : ℕ) → get_elem? (links b).1 si ≡ some (some (id, c)) → c ≡ no_conn

  -- The session with the id is the one that `find_client` gives.
  only_one :
      (si : ℕ) (s : Session A) (b : Broker T A)
      → IsPaired (links b)
      → session_at si b ≡ some s
      → s.client_id ≡ id
      → (sj c : ℕ) → get_elem? (links b).1 sj ≡ some (some (id, c))
      → c ≡ s.conn
  only_one si s b p here same sj c h =
      let at_si = session-link si b s here ∙ ap (λ x. some (some (x, s.conn))) same in
      let q = p.ids_differ sj si id c s.conn h at_si in grind (arith, q, h, at_si)

  abbrev pub doomed_owner : Session A → Broker T A → Broker T A
  doomed_owner s b = mark_dead s.conn (notify_session session_taken_over s b)

  links-doomed_owner : (s : Session A) (b : Broker T A) → links (doomed_owner s b) ≡ links b
  unfolding notify_session
  links-doomed_owner s b =
      let v = links-Stable env (links b) in v.killed s.conn _ (v.event _ b refl)

  doomed_owner-dead :
      (s : Session A) (b : Broker T A)
      → s.conn < length b.conns
      → ((conn_at s.conn (doomed_owner s b)).dead ≡ true)
        × (length (doomed_owner s b).conns ≡ length b.conns)
  unfolding notify_session on_event
  doomed_owner-dead s b h = (
    (mark_dead-IsDead s.conn (notify_session session_taken_over s b) h).1,
    (sized-Stable env (length b.conns)).killed s.conn (notify_session session_taken_over s b) refl,
  )

  owner_in_range :
      (si : ℕ) (s : Session A) (b : Broker T A)
      → IsPaired (links b)
      → session_at si b ≡ some s
      → is_connected s ≡ true
      → (get_elem? (links b).0 s.conn ≡ some (true, si)) × (s.conn < length b.conns)
  unfolding links
  owner_in_range si s b p here on =
      let own = owner_slot (links b).1 si (some (session_link s)) (session-link si b s here) in
      let back = p.session_side si s.conn own (ground (arith, on)) in
      (
        back,
        omega
            (arith, get_elem?-lt (links b).0 s.conn (true, si) back, length-map conn_link b.conns),
      )

  owner_flushed :
      (si : ℕ) (s : Session A) (b : Broker T A)
      → length b.conns ≡ env.max_connections
      → IsPaired (links b)
      → session_at si b ≡ some s
      → s.client_id ≡ id
      → is_connected s ≡ true
      → IsPaired (links (flush_dead env (doomed_owner s b)))
        × IsFree (flush_dead env (doomed_owner s b))
  owner_flushed si s b e p here same on =
      let b0 = doomed_owner s b in
      let l = links-doomed_owner s b in
      let p0 = subst IsPaired (sym l) p in
      let range = (owner_in_range si s b p here on).1 in
      let (dead, size) = doomed_owner-dead s b range in
      let only : OnlyOn id s.conn b0 =
        λ sj c h. inr (only_one si s b p here same sj c (ap (λ k. get_elem? k.1 sj) (sym l) ∙ h)) in
      (
        flush_dead-IsPaired env b0 p0,
        flush_dead-Free env id s.conn b0 (size ∙ e) p0 only (inl dead) (omega (arith, range, e)),
      )

  pub take_over-IsFree :
      (b : Broker T A)
      → length b.conns ≡ env.max_connections
      → IsPaired (links b)
      → IsPaired (links (take_over env id b)) × IsFree (take_over env id b)
  unfolding take_over
  take_over-IsFree b e p = elim (Option-cases (find_client id b)) [
    | inl f ↦ rw (f, take_over) (p, λ si c h. absurd (find_client-none id b f si c h))
    | inr (si, f) ↦
        let (s, here, same) = find_client-some id b si f in
        elim (Bool-cases (is_connected s)) [
          | inl on ↦ rw (f, here, on, take_over) (owner_flushed si s b e p here same on)
          | inr off ↦
              rw (f, here, off, take_over)
                (p, λ sj c h. only_one si s b p here same sj c h ∙ ground (arith, off))
        ]
  ]

  doomed_owner-IsBystander :
      (ci : ℕ) (c : Conn) (alive : c.dead ≡ false) (si : ℕ) (s : Session A) (b : Broker T A)
      → session_at si b ≡ some s
      → is_connected s ≡ true
      → IsBystander env ci c alive b
      → IsBystander env ci c alive (doomed_owner s b)
  unfolding notify_session
  doomed_owner-IsBystander ci c alive si s b here on (p, alone, h) =
      let (back, range) = owner_in_range si s b p here on in
      let own = owner_slot (links b).1 si (some (session_link s)) (session-link si b s here) in
      let n : ci ≢ s.conn = λ q.
        absurd
          (grind (arith, q, back, alone, owner-lt (links b).1 si s.conn own, p.few_sessions)) in
      let told = (Spares-Quiet env (links b) ci c).event _ b (refl, h) in
      let (l, k) = killed-Spares env (links b) ci c p alone s.conn n _ told in
      (subst IsPaired (sym l) p, ap (λ x. get_elem? x.0 ci) l ∙ alone, k)

  -- A connection without a session is not touched.
  pub take_over-IsBystander :
      (ci : ℕ) (c : Conn) (alive : c.dead ≡ false) (b : Broker T A)
      → IsBystander env ci c alive b
      → IsBystander env ci c alive (take_over env id b)
  unfolding take_over
  take_over-IsBystander ci c alive b (p, alone, h) = elim (Option-cases (find_client id b)) [
    | inl f ↦ rw (f, take_over) (p, alone, h)
    | inr (si, f) ↦
        let (s, here, same) = find_client-some id b si f in
        elim (Bool-cases (is_connected s)) [
          | inl on ↦
              rw (f, here, on, take_over)
                (flush_dead-IsBystander env ci c alive (doomed_owner s b)
                  (doomed_owner-IsBystander ci c alive si s b here on (p, alone, h)))
          | inr off ↦ rw (f, here, off, take_over) (p, alone, h)
        ]
  ]
