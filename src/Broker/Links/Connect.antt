-- ===== src/Broker/Links/Connect.antt =====
-- CONNECT keeps the references paired, and so does every packet.
use minimosq_mqtt.Prelude.{
  if_keeps, ℕ, ◌≤◌, ◌≡◌, refl, sym, ap, subst, ◌∙◌, inl, inr, true, false, not, none, some, arith,
  ◌==◌, Bool-cases, Bytes, length, get_elem?,
}
use minimosq_mqtt.Core.Span.{Err, malformed}
use minimosq_mqtt.Protocol.Packets.Parse.{ConnectPacket, Parsed, parse_connect}
use minimosq_mqtt.Broker.State.{Env, Conn, new_conn, Broker, conn_at, no_session, hang}
use minimosq_mqtt.Broker.ClientId.{generate_client_id}
use minimosq_mqtt.Broker.Notify.{notify_violation}
use minimosq_mqtt.Broker.Connect.{
  Checked, refused, closed, stuck, admitted, check_connect, choose_id, check_id, check_will, refuse,
  close_malformed, authenticate_connect, optional, connack_ok, handle_connect,
}
use minimosq_mqtt.Broker.Stable.{violation-Stable, notify_violation-Quiet}
use minimosq_mqtt.Broker.Links.{links, links-Stable}
use minimosq_mqtt.Broker.Links.Rules.{IsPaired}
use minimosq_mqtt.Broker.Links.Attach.{IsAttached, same-IsAttached}
use minimosq_mqtt.Broker.Links.Open.{refuse-links, open_session-IsAttached}

module _ {T A : Type 0} (env : Env T A) where
  -- A broker but for the counter of assigned ids.
  IsSame : Broker T A → Broker T A → Type 0
  IsSame b b' = (links b' ≡ links b) × (b'.conns ≡ b.conns)

  choose_id-IsSame : (p : ConnectPacket) (b : Broker T A) → IsSame b (choose_id env p b).1
  unfolding choose_id generate_client_id IsSame links
  choose_id-IsSame p b = ground arith

  -- The guards change the counter at most, and an admitted id fits.
  check_connect-IsSame : (p : ConnectPacket) (b : Broker T A) → IsSame b (check_connect env p b).1
  unfolding check_connect IsSame
  check_connect-IsSame p b = ground (arith, choose_id-IsSame p b)

  check_id-fits :
      (p : ConnectPacket) (id id' : Bytes)
      → check_id env p id ≡ admitted id'
      → length id' ≤ env.max_client_id_len
  unfolding check_id check_will
  check_id-fits p id id' e = ground (arith, e)

  check_connect-fits :
      (p : ConnectPacket) (b : Broker T A) (id : Bytes)
      → (check_connect env p b).0 ≡ admitted id
      → length id ≤ env.max_client_id_len
  unfolding check_connect
  check_connect-fits p b id e = grind (arith, check_id-fits p)

  close_malformed-links : (ci : ℕ) (b : Broker T A) → links (close_malformed env ci b) ≡ links b
  unfolding close_malformed
  close_malformed-links ci b =
      let v = links-Stable env (links b) in
      v.killed ci (notify_violation ci malformed b)
        (notify_violation-Quiet env (λ x. links x ≡ links b) v.quiet ci malformed b refl)

  authenticate_connect-IsAttached :
      (p : ConnectPacket) (ci : ℕ) (id : Bytes) (b : Broker T A)
      → length b.conns ≡ env.max_connections
      → length id ≤ env.max_client_id_len
      → IsPaired (links b)
      → get_elem? (links b).0 ci ≡ some (true, no_session)
      → (conn_at ci b).dead ≡ false
      → IsAttached ci (authenticate_connect env p ci id b)
  unfolding authenticate_connect
  authenticate_connect-IsAttached p ci id b e fits q alone alive =
      let r =
        env.authenticate id (optional env p.has_username p.username)
          (optional env p.has_password p.password) in
      if_keeps (IsAttached ci) (not (connack_ok r.0))
        (same-IsAttached ci b _ (refuse-links env ci r.0 id b) (q, (no_session, alone)))
        (open_session-IsAttached env p ci r.1 id b e fits q alone alive)

  -- What `handle_connect` does with the checks.
  after_checks : ConnectPacket → ℕ → Checked → Broker T A → Broker T A
  after_checks p ci r b = elim r as (λ _. Broker T A) [
    | refused code id ↦ refuse env ci code id b
    | closed ↦ close_malformed env ci b
    | stuck ↦ hang b
    | admitted id ↦ authenticate_connect env p ci id b
  ]

  hang-IsAttached :
      (ci : ℕ) (b : Broker T A)
      → IsPaired (links b)
      → get_elem? (links b).0 ci ≡ some (true, no_session)
      → IsAttached ci (hang b)
  unfolding links
  hang-IsAttached ci b q alone = (q, (no_session, alone))

  after_checks-IsAttached :
      (p : ConnectPacket) (ci : ℕ) (r : Checked) (b : Broker T A)
      → length b.conns ≡ env.max_connections
      → ((id : Bytes) → r ≡ admitted id → length id ≤ env.max_client_id_len)
      → IsPaired (links b)
      → get_elem? (links b).0 ci ≡ some (true, no_session)
      → (conn_at ci b).dead ≡ false
      → IsAttached ci (after_checks p ci r b)
  unfolding after_checks
  after_checks-IsAttached p ci (refused code id) b e fits q alone alive =
      same-IsAttached ci b _ (refuse-links env ci code id b) (q, (no_session, alone))
  after_checks-IsAttached p ci closed b e fits q alone alive =
      same-IsAttached ci b _ (close_malformed-links ci b) (q, (no_session, alone))
  after_checks-IsAttached p ci stuck b e fits q alone alive = hang-IsAttached ci b q alone
  after_checks-IsAttached p ci (admitted id) b e fits q alone alive =
      authenticate_connect-IsAttached p ci id b e (fits id refl) q alone alive

  after_parse : ℕ → Parsed ConnectPacket → Broker T A → Broker T A
  unfolding after_checks
  after_parse ci r b = elim r as (λ _. Broker T A) [
    | Parsed.error e ↦ close_malformed env ci b
    | Parsed.packet p ↦ after_checks p ci (check_connect env p b).0 (check_connect env p b).1
  ]

  after_parse-IsAttached :
      (ci : ℕ) (r : Parsed ConnectPacket) (b : Broker T A)
      → length b.conns ≡ env.max_connections
      → IsPaired (links b)
      → get_elem? (links b).0 ci ≡ some (true, no_session)
      → (conn_at ci b).dead ≡ false
      → IsAttached ci (after_parse ci r b)
  unfolding after_parse IsSame conn_at
  after_parse-IsAttached ci (Parsed.error e) b size q alone alive =
      same-IsAttached ci b _ (close_malformed-links ci b) (q, (no_session, alone))
  after_parse-IsAttached ci (Parsed.packet p) b size q alone alive =
      let (same, conns) = check_connect-IsSame p b in
      after_checks-IsAttached p ci (check_connect env p b).0 (check_connect env p b).1
        (ap length conns ∙ size) (check_connect-fits p b) (subst IsPaired (sym same) q)
        (ap (λ l. get_elem? l.0 ci) same ∙ alone)
        (ap
            (λ cs.
              (elim (get_elem? {A = Conn} cs ci) as (λ _. Conn) [
                | none ↦ new_conn
                | some c ↦ c
              ]).dead)
            conns
          ∙ alive)

  pub handle_connect-IsAttached :
      (ci : ℕ) (body : Bytes) (b : Broker T A)
      → length b.conns ≡ env.max_connections
      → IsPaired (links b)
      → get_elem? (links b).0 ci ≡ some (true, (conn_at ci b).session)
      → (conn_at ci b).dead ≡ false
      → IsAttached ci (handle_connect env ci body b)
  unfolding handle_connect after_checks after_parse
  handle_connect-IsAttached ci body b e q here alive =
      elim (Bool-cases ((conn_at ci b).session == no_session)) [
        | inl n ↦
            rw (n, handle_connect)
              (after_parse-IsAttached ci (parse_connect body) b e q
                (here ∙ ap (λ i. some (true, i)) (ground (arith, n))) alive)
        | inr n ↦
            rw (n, handle_connect)
              (same-IsAttached ci b _
                (violation-Stable env (λ x. links x ≡ links b) (links-Stable env (links b)) ci
                  Err.state b refl)
                (q, (_, here)))
      ]
