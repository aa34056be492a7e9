-- ===== src/Broker/Stable/Queue.antt =====
-- The queue of a session keeps what is stable.
use minimosq_mqtt.Prelude.{
  ℕ, zero, suc, ◌^◌, ◌<◌, ◌≡◌, inl, inr, Bool, true, some, List, arith, Option-cases, Bool-cases,
  Bytes, get_elem?, length, ltb, if_keeps,
}
use minimosq_mqtt.Protocol.Constants.{QoS}
use minimosq_mqtt.Broker.Session.{Session, OutMsg, alloc_packet_id, id_loop, next_id}
use minimosq_mqtt.Core.Span.{oversize, capacity}
use minimosq_mqtt.Core.StaticVector.{push_back}
use minimosq_mqtt.Broker.State.{Env, Broker, modify_session, session_at}
use minimosq_mqtt.Broker.Send.{is_online}
use minimosq_mqtt.Broker.Delivery.{
  Turn, advance, again, leave, publish_of, sent_state, with_packet_id, resend_pubrel, publish_msg,
  first_send, pump_turn, retransmit, resume_pubrel, resume_turn, queue_loop, pump_session,
  resume_session, enqueue, new_message,
}
use minimosq_mqtt.Broker.Stable.{
  Quiet, notify_drop-Quiet, set_msg-Quiet, drop_msg-Quiet, try_send_to-Quiet,
}

-- The broker that a turn leaves.
abbrev pub After : {T A : Type 0} → (Broker T A → Type 0) → Turn (Broker T A) → Type 0
After P (advance b) = P b
After P (again b) = P b
After P (leave b) = P b

id_loop-IsSmall : (n last id : ℕ) (ms : List OutMsg) → id_loop n last ms ≡ some id → id < 2 ^ 16
unfolding id_loop
id_loop-IsSmall zero last id ms e = cc
id_loop-IsSmall (suc n) last id ms e = ground (arith, e, id_loop-IsSmall n (next_id last) id ms)

alloc_packet_id-IsSmall :
    {A : Type 0} (s : Session A) (id : ℕ) (s' : Session A)
    → alloc_packet_id s ≡ some (id, s')
    → s'.last_packet_id < 2 ^ 16
unfolding alloc_packet_id
alloc_packet_id-IsSmall s id s' e =
    elim (Option-cases (id_loop (suc (length s.pending)) s.last_packet_id s.pending)) [
      | inl d ↦ absurd (grind (arith, rw (d, alloc_packet_id) at e))
      | inr (n, d) ↦
          let small = id_loop-IsSmall (suc (length s.pending)) s.last_packet_id n s.pending d in
          grind (arith, rw (d, alloc_packet_id) at e)
    ]

module _ {T A : Type 0} (P : Broker T A → Type 0)
    (turn : ℕ → ℕ → Session A → OutMsg → Broker T A → Turn (Broker T A)) where
  -- The loop goes on from a turn.
  after-turn :
      (n si i : ℕ)
      → ((j : ℕ) (c : Broker T A) → P c → P (queue_loop turn n si j c))
      → (r : Turn (Broker T A)) → After P r
      → P (elim r as (λ _. Broker T A) [
        | advance c ↦ queue_loop turn n si (suc i) c
        | again c ↦ queue_loop turn n si i c
        | leave c ↦ c
      ])
  after-turn n si i ih (advance c) q = ih (suc i) c q
  after-turn n si i ih (again c) q = ih i c q
  after-turn n si i ih (leave c) q = q

  queue_loop-Quiet :
      ((si i : ℕ) (s : Session A) (m : OutMsg) (b : Broker T A)
        → session_at si b ≡ some s
        → P b
        → After P (turn si i s m b))
      → (n si i : ℕ) (b : Broker T A) → P b
      → P (queue_loop turn n si i b)
  unfolding queue_loop
  queue_loop-Quiet steady zero si i b h = h
  queue_loop-Quiet steady (suc n) si i b h = elim (Option-cases (session_at si b)) [
    | inl e ↦ rw (e, queue_loop) h
    | inr (s, e) ↦ elim (Option-cases (get_elem? s.pending i)) [
      | inl d ↦ rw (e, queue_loop, d) h
      | inr (m, d) ↦
          rw (e, queue_loop, d)
            (after-turn n si i (λ j c. queue_loop-Quiet steady n si j c) (turn si i s m b)
              (steady si i s m b e h))
    ]
  ]

module _ {T A : Type 0} (env : Env T A) (P : Broker T A → Type 0) (v : Quiet env P) where
  publish_msg-Quiet :
      (si i : ℕ) (s : Session A) (m : OutMsg) (pkt : Bytes) (c : OutMsg) (b : Broker T A)
      → P b
      → After P (publish_msg env si i s m pkt c b)
  unfolding publish_msg
  publish_msg-Quiet si i s m pkt c b h = grind (
    arith,
    notify_drop-Quiet env P v,
    drop_msg-Quiet env P v,
    try_send_to-Quiet env P v,
    set_msg-Quiet env P v,
  )

  resend_pubrel-Quiet :
      (si i : ℕ) (s : Session A) (m : OutMsg) (b : Broker T A)
      → P b
      → After P (resend_pubrel env si i s m b)
  unfolding resend_pubrel
  resend_pubrel-Quiet si i s m b h = grind (arith, try_send_to-Quiet env P v, set_msg-Quiet env P v)

  resume_pubrel-Quiet :
      (si i : ℕ) (s : Session A) (m : OutMsg) (b : Broker T A)
      → P b
      → After P (resume_pubrel env si i s m b)
  unfolding resume_pubrel
  resume_pubrel-Quiet si i s m b h = grind (arith, try_send_to-Quiet env P v, set_msg-Quiet env P v)

  first_send-Quiet :
      (si i : ℕ) (s : Session A) (m : OutMsg) (b : Broker T A)
      → session_at si b ≡ some s
      → P b
      → After P (first_send env si i s m b)
  unfolding first_send with_packet_id
  first_send-Quiet si i s m b e h = elim (Option-cases (alloc_packet_id s)) [
    | inl n ↦ rw (n, with_packet_id, first_send) (v.searched si s b e n h)
    | inr ((id, s'), n) ↦
        let note : Session A → Session A = λ t. record t { last_packet_id = s'.last_packet_id } in
        rw (n, with_packet_id, first_send)
          (publish_msg-Quiet si i s m (publish_of env m m.dup id)
            (record m { packet_id = id; state = sent_state m.qos }) (modify_session si note b)
            (v.identified si s'.last_packet_id b (alloc_packet_id-IsSmall s id s' n) h))
  ]

  retransmit-Quiet :
      (si i : ℕ) (s : Session A) (m : OutMsg) (b : Broker T A)
      → P b
      → After P (retransmit env si i s m b)
  unfolding retransmit
  retransmit-Quiet si i s m b =
      publish_msg-Quiet si i s m (publish_of env m true m.packet_id) (record m { dup = true }) b

  pump_turn-Quiet :
      (si i : ℕ) (s : Session A) (m : OutMsg) (b : Broker T A)
      → session_at si b ≡ some s
      → P b
      → After P (pump_turn env si i s m b)
  unfolding pump_turn
  pump_turn-Quiet si i s m b e h =
      ground (arith, resend_pubrel-Quiet si i s m b h, first_send-Quiet si i s m b e h)

  resume_turn-Quiet :
      (si i : ℕ) (s : Session A) (m : OutMsg) (b : Broker T A)
      → session_at si b ≡ some s
      → P b
      → After P (resume_turn env si i s m b)
  unfolding resume_turn
  resume_turn-Quiet si i s m b e h = ground (
    arith,
    resume_pubrel-Quiet si i s m b h,
    first_send-Quiet si i s m b e h,
    retransmit-Quiet si i s m b h,
  )

  pub pump_session-Quiet : (si : ℕ) (b : Broker T A) → P b → P (pump_session env si b)
  unfolding pump_session
  pump_session-Quiet si b = queue_loop-Quiet P (pump_turn env) pump_turn-Quiet _ si 0 b

  pub resume_session-Quiet : (si : ℕ) (b : Broker T A) → P b → P (resume_session env si b)
  unfolding resume_session
  resume_session-Quiet si b = queue_loop-Quiet P (resume_turn env) resume_turn-Quiet _ si 0 b

  pub enqueue-Quiet :
      (si : ℕ) (s : Session A) (t p : Bytes) (q : QoS) (r : Bool) (b : Broker T A)
      → session_at si b ≡ some s
      → P b
      → P (enqueue env si s t p q r b)
  unfolding enqueue
  enqueue-Quiet si s t p q r b e h =
      let m = new_message env t p q r in
      elim (Bool-cases (ltb env.max_payload_len (length p))) [
        | inl d ↦ rw (d, enqueue) (notify_drop-Quiet env P v s t q oversize b h)
        | inr d ↦ elim (Option-cases (push_back env.max_pending_per_session s.pending m)) [
          | inl f ↦ rw (d, f, enqueue) (notify_drop-Quiet env P v s t q capacity b h)
          | inr (ms, f) ↦
              let b1 = modify_session si (λ t. record t { pending = ms }) b in
              let h1 : P b1 = v.queued si s m ms b e f h in
              rw (d, f, enqueue) (if_keeps P (is_online env s b1) (pump_session-Quiet si b1 h1) h1)
        ]
      ]
