-- ===== src/Broker/Links/Attach.antt =====
-- The end of `handle_connect`: a connection and a session refer to each other.
use minimosq_mqtt.Prelude.{
  if_keeps, ℕ, ◌%◌, ◌^◌, ◌<◌, ◌≡◌, sym, ap, subst, ◌∙◌, Bool, true, Option, none, some, arith,
  if◌then◌else◌, set, get_elem?, get_elem?-lt, get_elem?-set_self,
}
use minimosq_mqtt.Protocol.Constants.{accepted}
use minimosq_mqtt.Protocol.Packets.Parse.{ConnectPacket}
use minimosq_mqtt.Protocol.Packets.Build.{build_connack}
use minimosq_mqtt.Broker.Session.{Session, no_conn}
use minimosq_mqtt.Broker.State.{
  Env, session_resumed, session_created, Conn, Broker, modify_conn, modify_session, conn_at,
  session_at, no_session,
}
use minimosq_mqtt.Broker.Clock.{refresh_deadline}
use minimosq_mqtt.Broker.Notify.{notify_session}
use minimosq_mqtt.Broker.Send.{send_to}
use minimosq_mqtt.Broker.Delivery.{out_cap}
use minimosq_mqtt.Broker.Connect.{connect_fields, attach_conn, accept_connect}
use minimosq_mqtt.Broker.Stable.{session_link, notify_session-Quiet, send_to-Stable}
use minimosq_mqtt.Broker.Stable.Queue.{resume_session-Quiet}
use minimosq_mqtt.Broker.Links.{
  Links, links, links-Stable, conn_link, session-link, links-modify_conn, links-modify_session,
}
use minimosq_mqtt.Broker.Links.Spared.{conn_at-written}
use minimosq_mqtt.Broker.Links.Flush.{link-conn}
use minimosq_mqtt.Broker.Links.Rules.{IsPaired, attach-IsPaired}

module _ {T A : Type 0} where
  -- The connection is open, with or without a session, and the references are paired.
  abbrev pub IsAttached : ℕ → Broker T A → Type 0
  IsAttached ci b = IsPaired (links b) × ((sj : ℕ) × (get_elem? (links b).0 ci ≡ some (true, sj)))

  -- What leaves the links leaves this.
  pub same-IsAttached :
      (ci : ℕ) (b b' : Broker T A) → links b' ≡ links b → IsAttached ci b → IsAttached ci b'
  same-IsAttached ci b b' e (p, (sj, here)) =
      (subst IsPaired (sym e) p, (sj, ap (λ l. get_elem? l.0 ci) e ∙ here))

module _ {T A : Type 0} (env : Env T A) where
  connect_fields-link :
      (p : ConnectPacket) (ci : ℕ) (ctx : A) (s : Session A)
      → session_link (connect_fields env p ci ctx s) ≡ (s.client_id, ci % 2 ^ 16)
  unfolding connect_fields
  connect_fields-link p ci ctx s = ground arith

  attach_conn-link :
      (p : ConnectPacket) (si : ℕ) (b : Broker T A) (c : Conn)
      → conn_link (attach_conn env p si b c) ≡ (c.active, si % 2 ^ 16)
  unfolding attach_conn refresh_deadline
  attach_conn-link p si b c = ground arith

  -- The two writes of `accept_connect`.
  abbrev pub attached : ConnectPacket → ℕ → A → ℕ → Broker T A → Broker T A
  attached p ci ctx si b =
      let b1 = modify_session si (connect_fields env p ci ctx) b in
      modify_conn ci (attach_conn env p si b1) b1

  links-attached :
      (p : ConnectPacket) (ci : ℕ) (ctx : A) (si : ℕ) (b : Broker T A) (s : Session A)
      → session_at si b ≡ some s
      → (conn_at ci b).active ≡ true
      → ci < 2 ^ 16
      → si < 2 ^ 16
      → links (attached p ci ctx si b)
        ≡ (set (links b).0 ci (true, si), set (links b).1 si (some (s.client_id, ci)))
  links-attached p ci ctx si b s e act hc hs =
      let b1 = modify_session si (connect_fields env p ci ctx) b in
      let kept : session_link (connect_fields env p ci ctx s) ≡ (s.client_id, ci) =
        connect_fields-link p ci ctx s ∙ ap (λ n. (s.client_id, n)) (omega arith) in
      let l1 =
        links-modify_session si (connect_fields env p ci ctx) b s e
        ∙ ap (λ k. ((links b).0, set (links b).1 si (some k))) kept in
      let here : conn_link (attach_conn env p si b1 (conn_at ci b1)) ≡ (true, si) =
        attach_conn-link p si b1 (conn_at ci b1)
        ∙ ap (λ n. ((conn_at ci b1).active, n)) (omega arith)
        ∙ ap (λ a. (a, si))
            (ap (λ c. c.active) (conn_at-written ci si (connect_fields env p ci ctx) b) ∙ act) in
      links-modify_conn ci (attach_conn env p si b1) b1
      ∙ ap (λ k. (set (links b1).0 ci k, (links b1).1)) here
      ∙ ap (λ x. (set x.0 ci (true, si), x.1)) l1

  -- The report of the session.
  abbrev told_of : Bool → Option (Session A) → Broker T A → Broker T A
  told_of present o b = elim o as (λ _. Broker T A) [
    | none ↦ b
    | some s ↦ notify_session (if present then session_resumed else session_created) s b
  ]

  told_of-links :
      (present : Bool) (o : Option (Session A)) (b : Broker T A) (l : Links)
      → links b ≡ l
      → links (told_of present o b) ≡ l
  told_of-links present none b l h = h
  told_of-links present (some s) b l h =
      notify_session-Quiet env (λ x. links x ≡ l) (links-Stable env l).quiet
        (if present then session_resumed else session_created) s b h

  accept_connect-links :
      (p : ConnectPacket) (ci : ℕ) (ctx : A) (si : ℕ) (present : Bool) (b : Broker T A) (l : Links)
      → links (attached p ci ctx si b) ≡ l
      → links (accept_connect env p ci ctx si present b) ≡ l
  unfolding accept_connect
  accept_connect-links p ci ctx si present b l h =
      let P : Broker T A → Type 0 = λ x. links x ≡ l in
      let v = links-Stable env l in
      let b2 = attached p ci ctx si b in
      let b3 = told_of present (session_at si b2) b2 in
      let told = told_of-links present (session_at si b2) b2 l h in
      let pkt = build_connack (out_cap env) present accepted in
      let sent = send_to-Stable env P v ci pkt b3 told in
      if_keeps P present (resume_session-Quiet env P v.quiet si (send_to env ci pkt b3) sent) sent

  pub accept_connect-IsAttached :
      (p : ConnectPacket) (ci : ℕ) (ctx : A) (si : ℕ) (present : Bool) (b : Broker T A)
      (s : Session A)
      → IsPaired (links b)
      → get_elem? (links b).0 ci ≡ some (true, no_session)
      → session_at si b ≡ some s
      → s.conn ≡ no_conn
      → IsAttached ci (accept_connect env p ci ctx si present b)
  accept_connect-IsAttached p ci ctx si present b s q alone e off =
      let at_si = session-link si b s e ∙ ap (λ n. some (some (s.client_id, n))) off in
      let hc = get_elem?-lt (links b).0 ci (true, no_session) alone in
      let hs = get_elem?-lt (links b).1 si (some (s.client_id, no_conn)) at_si in
      let act = ap (λ k. k.0) (link-conn ci b (true, no_session) alone) in
      let l = accept_connect-links p ci ctx si present b _ (
        links-attached p ci ctx si b s e act (omega (arith, hc, q.few_conns))
          (omega (arith, hs, q.few_sessions))) in
      (
        subst IsPaired (sym l)
            (attach-IsPaired (links b).0 (links b).1 ci si s.client_id q alone at_si),
        (si, ap (λ k. get_elem? k.0 ci) l ∙ get_elem?-set_self (links b).0 ci (true, si) hc),
      )
