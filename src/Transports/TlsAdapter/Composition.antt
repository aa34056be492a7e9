-- ===== src/Transports/TlsAdapter/Composition.antt =====
-- include/minimosq/transports/tls_adapter.hpp: the driver keeps towards the raw transport the contract that
-- the broker keeps towards the adapter.
use minimosq_mqtt.Prelude.{
  ℕ, zero, suc, ◌≡◌, refl, sym, ap, subst, ◌∙◌, ◌⊎◌, inl, inr, Bool, false, Option, none, some,
  arith, Option-cases, Bytes, length, take, get_elem?,
}
use minimosq_mqtt.Core.Span.{Err, is_ok}
use minimosq_mqtt.Transports.Client.{Client, IsClient}
use minimosq_mqtt.Transports.TlsAdapter.{
  Report, Opened, Engine, TlsAdapter, send_report, send, close,
}
use minimosq_mqtt.Transports.TlsAdapter.Driver.{
  Drained, kept, failed, drain_report, drain_slot, shut_slot, drain_one, drain_from, drain_all,
  drain_engines, conn_open, conn_closed, drop_conn, pass_plain, data_report, conn_data, tick,
  driver,
}

Drained-cases : {S : Type 0} (d : Drained S) → ((s : S) × (d ≡ kept s)) ⊎ ((s : S) × (d ≡ failed s))
Drained-cases (kept s) = inl (s, refl)
Drained-cases (failed s) = inr (s, refl)

-- The state in either case.
abbrev drained : {S : Type 0} → Drained S → S
drained (kept s) = s
drained (failed s) = s

module _ {E T W : Type 0} (engine : Engine E) (raw_send : T → ℕ → Bytes → T × Bool)
    (raw_close : T → ℕ → T) (n : ℕ) (client : Client (TlsAdapter E T) W)
    (contract : IsClient
      (send engine raw_send raw_close n)
      (close engine raw_send raw_close n)
      client) where
  module _ (P : T → Type 0)
      (sends : (t : T) (ci : ℕ) (bytes : Bytes) → P t → P (raw_send t ci bytes).0)
      (closes : (t : T) (ci : ℕ) → P t → P (raw_close t ci)) where
    abbrev Raw : TlsAdapter E T → Type 0
    Raw a = P a.raw

    abbrev Holds : W → Type 0
    Holds w = P (client.get w).raw

    send-Raw :
        (a : TlsAdapter E T) (ci : ℕ) (bytes : Bytes)
        → Raw a
        → Raw (send engine raw_send raw_close n a ci bytes).0
    unfolding send send_report
    send-Raw a ci bytes h = elim (Option-cases (get_elem? a.engines ci)) [
      | inl d ↦ rw (d, send) h
      | inr (e, d) ↦
          let r = (engine.encrypt e bytes a.cipher).0 in
          let sent = sends a.raw ci (take r.len r.buf) h in rw (d, send) (grind (arith, sent, h))
    ]

    close-Raw : (a : TlsAdapter E T) (ci : ℕ) → Raw a → Raw (close engine raw_send raw_close n a ci)
    unfolding close
    close-Raw a ci h = elim (Option-cases (get_elem? a.engine_open ci)) [
      | inl d ↦ rw (d, close) h
      | inr (o, d) ↦ rw (d, close) (closes a.raw ci h)
    ]

    put-Holds : (a : TlsAdapter E T) (w : W) → Raw a → Holds (client.put a w)
    put-Holds a w h = subst Raw (sym (contract.get-put a w)) h

    abbrev called :
        (w : W)
        → Holds w
        → ((ci now : ℕ) → Holds (client.conn_open ci now w).1)
          × ((ci : ℕ) (bytes : Bytes) (now : ℕ) → Holds (client.conn_data ci bytes now w).1)
          × ((ci : ℕ) → Holds (client.conn_closed ci w))
          × ((now : ℕ) → Holds (client.tick now w))
    called w h = contract.keeps Raw send-Raw close-Raw w h

    drain_slot-Raw :
        (drain : E → Bytes → Report × E) (ci : ℕ) (a : TlsAdapter E T)
        → Raw a
        → Raw (drained (drain_slot engine raw_send raw_close n client drain ci a))
    unfolding drain_slot drain_report
    drain_slot-Raw drain ci a h = elim (Option-cases (get_elem? a.engine_open ci)) [
      | inl d ↦ rw (d, drain_slot) h
      | inr (o, d) ↦ elim (Option-cases (get_elem? a.engines ci)) [
        | inl e ↦ rw (d, e, drain_slot) h
        | inr (x, e) ↦
            let r = (drain x a.cipher).0 in
            let sent = sends a.raw ci (take r.len r.buf) h in
            rw (d, e, drain_slot) (grind (arith, sent, h))
      ]
    ]

    drain_one-Holds :
        (drain : E → Bytes → Report × E) (ci : ℕ) (w : W)
        → Holds w
        → Holds (drain_one engine raw_send raw_close n client drain ci w)
    unfolding drain_one
    drain_one-Holds drain ci w h =
        let d = drain_slot engine raw_send raw_close n client drain ci (client.get w) in
        let raw = drain_slot-Raw drain ci (client.get w) h in
        elim (Drained-cases d) [
          | inl (a, e) ↦ rw (e, drain_one) (put-Holds a w (subst (λ x. Raw (drained x)) e raw))
          | inr (a, e) ↦
              let w1 = client.put (shut_slot engine raw_send raw_close n client ci a) w in
              rw (e, drain_one)
                ((called w1
                    (put-Holds _ w (closes a.raw ci (subst (λ x. Raw (drained x)) e raw)))).2
                  ci)
        ]

    drain_from-Holds :
        (drain : E → Bytes → Report × E) (m ci : ℕ) (w : W)
        → Holds w
        → Holds (drain_from engine raw_send raw_close n client drain m ci w)
    unfolding drain_from
    drain_from-Holds drain zero ci w h = h
    drain_from-Holds drain (suc m) ci w h =
        drain_from-Holds drain m (suc ci) _ (drain_one-Holds drain ci w h)

    drain_all-Holds :
        (drain : Option (E → Bytes → Report × E)) (w : W)
        → Holds w
        → Holds (drain_all engine raw_send raw_close n client drain w)
    unfolding drain_all
    drain_all-Holds none w h = h
    drain_all-Holds (some drain) w h = drain_from-Holds drain (length (client.get w).engines) 0 w h

    tick-Holds : (now : ℕ) (w : W) → Holds w → Holds (tick engine raw_send raw_close n client now w)
    unfolding tick drain_engines
    tick-Holds now w h = (called _ (drain_all-Holds engine.drain w h)).3 now

    conn_open-Holds :
        (ci now : ℕ) (w : W)
        → Holds w
        → Holds (conn_open engine raw_send raw_close n client ci now w).1
    unfolding conn_open
    conn_open-Holds ci now w h = elim (Option-cases (get_elem? (client.get w).engines ci)) [
      | inl d ↦ rw (d, conn_open) h
      | inr (e, d) ↦ rw (d, conn_open) ((called _ (put-Holds _ w h)).0 ci now)
    ]

    conn_closed-Holds :
        (ci : ℕ) (w : W) → Holds w → Holds (conn_closed engine raw_send raw_close n client ci w)
    unfolding conn_closed
    conn_closed-Holds ci w h = elim (Option-cases (get_elem? (client.get w).engines ci)) [
      | inl d ↦ rw (d, conn_closed) h
      | inr (e, d) ↦ rw (d, conn_closed) ((called _ (put-Holds _ w h)).2 ci)
    ]

    drop_conn-Holds :
        (e : Err) (ci : ℕ) (w : W)
        → Holds w
        → Holds (drop_conn engine raw_send raw_close n client e ci w).1
    unfolding drop_conn
    drop_conn-Holds e ci w h = (called _ (put-Holds _ w (close-Raw (client.get w) ci h))).2 ci

    pass_plain-Holds :
        (ci : ℕ) (r : Opened) (now : ℕ) (w : W)
        → Holds w
        → Holds (pass_plain engine raw_send raw_close n client ci r now w).1
    unfolding pass_plain
    pass_plain-Holds ci r now w h =
        let given = (called w h).1 ci (take r.plain_len r.plain) now in grind (arith, given, h)

    data_report-Holds :
        (ci : ℕ) (r : Opened) (now : ℕ) (w : W)
        → Holds w
        → Holds (data_report engine raw_send raw_close n client ci r now w).1
    unfolding data_report
    data_report-Holds ci r now w h =
        let a = client.get w in
        let raw = raw_send a.raw ci (take r.cipher_len r.cipher) in
        let sent = put-Holds (record a { raw = raw.0 }) w (sends a.raw ci _ h) in
        grind (arith, drop_conn-Holds, pass_plain-Holds, sent, h)

    conn_data-Holds :
        (ci : ℕ) (bytes : Bytes) (now : ℕ) (w : W)
        → Holds w
        → Holds (conn_data engine raw_send raw_close n client ci bytes now w).1
    unfolding conn_data
    conn_data-Holds ci bytes now w h = elim (Option-cases (get_elem? (client.get w).engines ci)) [
      | inl d ↦ rw (d, conn_data) h
      | inr (e, d) ↦ rw (d, conn_data) (data_report-Holds ci _ now _ (put-Holds _ w h))
    ]

  refused_open :
      (ci now : ℕ) (w : W)
      → is_ok (conn_open engine raw_send raw_close n client ci now w).0 ≡ false
      → (client.get (conn_open engine raw_send raw_close n client ci now w).1).raw
        ≡ (client.get w).raw
  unfolding conn_open
  refused_open ci now w h = elim (Option-cases (get_elem? (client.get w).engines ci)) [
    | inl d ↦ rw (d, conn_open) refl
    | inr (e, d) ↦
        rw (d, conn_open)
          (ap (λ a. a.raw)
            (contract.refused ci now _ (rw (d, conn_open) at h) ∙ contract.get-put _ w))
  ]

  -- Over anything that keeps the contract towards the adapter, the driver keeps it towards the
  -- raw transport, for any engine: it too reaches the transport by `send` and `close` alone.
  pub driver-IsClient : IsClient raw_send raw_close (driver engine raw_send raw_close n client)
  driver-IsClient = record {
    get-put = λ t w. ap (λ a. a.raw) (contract.get-put _ w);
    refused = refused_open;
    keeps = λ P sends closes w h. (
      λ ci now. conn_open-Holds P sends closes ci now w h,
      λ ci bytes now. conn_data-Holds P sends closes ci bytes now w h,
      λ ci. conn_closed-Holds P sends closes ci w h,
      λ now. tick-Holds P sends closes now w h,
    );
  }
