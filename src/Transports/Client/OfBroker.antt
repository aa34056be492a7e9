-- ===== src/Transports/Client/OfBroker.antt =====
-- include/minimosq/broker/broker.hpp: the broker as what a transport drives.
use minimosq_mqtt.Prelude.{
  ℕ, ◌≡◌, refl, sym, subst, some, inl, inr, false, none, ltb, not, ◌||◌, Bool-cases, Option-cases,
  Bytes, arith,
}
use minimosq_mqtt.Core.Span.{Err, is_ok}
use minimosq_mqtt.Broker.State.{
  Env, Broker, hang, modify_conn, modify_session, put_session, session_at, conn_at,
}
use minimosq_mqtt.Broker.Notify.{on_event, mark_dead}
use minimosq_mqtt.Broker.Send.{transport_send}
use minimosq_mqtt.Broker.Session.{Session}
use minimosq_mqtt.Broker.ClientId.{generate_client_id}
use minimosq_mqtt.Broker.Connect.{alloc_session}
use minimosq_mqtt.Broker.Teardown.{release_session}
use minimosq_mqtt.Broker.Entry.{conn_open, conn_data, conn_closed, tick}
use minimosq_mqtt.Broker.Robust.{Robust, calls-Robust}
use minimosq_mqtt.Transports.Client.{Client, IsClient}

module _ {T A : Type 0} (env : Env T A) where
  -- `conn_data`; where the fuel of its parser would run out, the broker hangs.
  unfoldable pub data_call : ℕ → Bytes → ℕ → Broker T A → Err × Broker T A
  data_call ci bytes now b = elim (conn_data env ci bytes now b) [
    | none ↦ (Err.state, hang b)
    | some r ↦ r
  ]

  abbrev pub broker_client : Client T (Broker T A)
  broker_client = record {
    get = λ b. b.tr;
    put = λ tr b. record b { tr = tr };
    conn_open = conn_open env;
    conn_data = data_call;
    conn_closed = conn_closed env;
    tick = tick env;
  }

  module _ (P : T → Type 0)
      (sends : (t : T) (ci : ℕ) (bytes : Bytes) → P t → P (env.send t ci bytes).0)
      (closes : (t : T) (ci : ℕ) → P t → P (env.close t ci)) where
    alloc_session-tr : (b : Broker T A) → (alloc_session env b).1.tr ≡ b.tr
    unfolding alloc_session
    alloc_session-tr b = ground arith

    generate_client_id-tr :
        (b : Broker T A) (id : Bytes) (b1 : Broker T A)
        → generate_client_id b ≡ some (id, b1)
        → b1.tr ≡ b.tr
    unfolding generate_client_id
    generate_client_id-tr b id b1 e = grind (arith, e)

    abbrev Reaches : Broker T A → Type 0
    Reaches b = P b.tr

    modify_session-tr :
        (si : ℕ) (f : Session A → Session A) (b : Broker T A) → (modify_session si f b).tr ≡ b.tr
    unfolding modify_session put_session
    modify_session-tr si f b = elim (Option-cases (session_at si b)) [
      | inl e ↦ rw (e, modify_session) refl
      | inr (s, e) ↦ rw (e, modify_session) refl
    ]

    Reaches-Robust : Robust env Reaches
    unfolding release_session on_event transport_send mark_dead modify_conn modify_session
        put_session
    Reaches-Robust = record {
      stable = record {
        quiet = record {
          event = λ e b h. h;
          sent = λ ci pkt b h. sends b.tr ci pkt h;
          kept = λ r b h. h;
          written = λ si f b keeps still h. subst P (sym (modify_session-tr si f b)) h;
          identified = λ si id b small h. subst P (sym (modify_session-tr si _ b)) h;
          queued = λ si s m ms b e room h. subst P (sym (modify_session-tr si _ b)) h;
          searched = λ si s b e none_left h. h;
        };
        killed = λ ci b h. h;
      };
      conn_written = λ ci f b h. h;
      session_written = λ si f b still h. subst P (sym (modify_session-tr si f b)) h;
      freed = λ si b h. h;
      claimed = λ b h. subst P (sym (alloc_session-tr b)) h;
      timed = λ now b h. h;
      ordered = λ k b h. h;
      assigned = λ b id b1 e h. subst P (sym (generate_client_id-tr b id b1 e)) h;
      unassigned = λ b e h. h;
      closed = λ ci b h. closes b.tr ci h;
    }

    data_call-Reaches :
        (ci : ℕ) (bytes : Bytes) (now : ℕ) (b : Broker T A)
        → Reaches b
        → Reaches (data_call ci bytes now b).1
    unfolding data_call
    data_call-Reaches ci bytes now b h = elim (Option-cases (conn_data env ci bytes now b)) [
      | inl d ↦ rw (d, data_call) h
      | inr ((e, b'), d) ↦
          rw (d, data_call) ((calls-Robust env Reaches Reaches-Robust b h).1 ci bytes now e b' d)
    ]

  refused_open :
      (ci now : ℕ) (b : Broker T A)
      → is_ok (conn_open env ci now b).0 ≡ false
      → (conn_open env ci now b).1.tr ≡ b.tr
  unfolding conn_open
  refused_open ci now b h =
      elim (Bool-cases (not (ltb ci env.max_connections) || (conn_at ci b).active)) [
        | inl d ↦ rw (d, conn_open) refl
        | inr d ↦ absurd (grind (arith, rw (d, conn_open) at h))
      ]

  -- The broker keeps the contract of what a transport drives: what every `send` and `close`
  -- keeps, each of `conn_open`, `conn_data`, `conn_closed` and `tick` keeps, since no operation
  -- reaches the transport in another way, and a `conn_open` that is refused leaves the transport
  -- as it was.
  pub broker_client-IsClient : IsClient env.send env.close broker_client
  broker_client-IsClient = record {
    get-put = λ t b. refl;
    refused = refused_open;
    keeps = λ P sends closes b h.
        let calls = calls-Robust env (λ x. P x.tr) (Reaches-Robust P sends closes) b h in
        (
          calls.0,
          λ ci bytes now. data_call-Reaches P sends closes ci bytes now b h,
          calls.2,
          calls.3,
        );
  }
