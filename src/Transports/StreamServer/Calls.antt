-- ===== src/Transports/StreamServer/Calls.antt =====
-- include/minimosq/transports/posix/stream_server.hpp: what `send`, `close` and `flush_all` keep.
use minimosq_mqtt.Prelude.{
  ℕ, zero, suc, ◌≡◌, refl, sym, ap, ◌∙◌, inl, inr, Option, none, some, List, [], ◌∷◌, arith,
  Option-cases, Bytes, get_elem?, map, map-set_same,
}
use minimosq_mqtt.Transports.Ring.{clear}
use minimosq_mqtt.Transports.Ring.Queue.{clear-contents}
use minimosq_mqtt.Transports.Kernel.{Kernel}
use minimosq_mqtt.Transports.Kernel.Flush.{IsKernel, drain}
use minimosq_mqtt.Transports.StreamServer.{
  Slot, Act, closed_fd, StreamServer, native_handle, flush, flush_slot, append_slot, retry_append,
  send, close, release_slot, shut,
}
use minimosq_mqtt.Transports.StreamServer.Ledger.{
  IsSound, IsFlowing, queued_bytes, wrote_bytes, IsAbout,
}
use minimosq_mqtt.Transports.StreamServer.Streams.{
  flush-IsSound, append_slot-IsSound, put-Flows, put-Balanced,
}

module _ {K : Type 0} (sys : Kernel K) (c : ℕ) where
  -- A flush keeps the descriptor of every slot.
  pub flush-slots :
      (ci : ℕ) (s : StreamServer K)
      → map (λ t. t.fd) (flush sys c ci s).slots ≡ map (λ t. t.fd) s.slots
  unfolding flush flush_slot
  flush-slots ci s = elim (Option-cases (get_elem? s.slots ci)) [
    | inl e ↦ rw (e, flush) refl
    | inr (t, e) ↦ elim (Option-cases t.fd) [
      | inl o ↦ rw (e, o, flush) refl
      | inr (fd, o) ↦
          rw (e, o, flush)
            (map-set_same (λ t. t.fd) s.slots ci t
              (record t { ring = (drain sys c fd t.ring s.kernel).ring }) e refl)
    ]
  ]

-- What `native_handle` finds.
abbrev slot_fd : Option (Option ℕ) → Option ℕ
slot_fd none = none
slot_fd (some o) = o

module _ {K : Type 0} where
  native_handle-map :
      (ci : ℕ) (s : StreamServer K)
      → native_handle ci s ≡ slot_fd (get_elem? (map (λ t. t.fd) s.slots) ci)
  unfolding native_handle
  native_handle-map ci s = found s.slots ci
    where
      found :
          (slots : List Slot) (i : ℕ)
          → (elim (get_elem? slots i) as (λ _. Option ℕ) [ none ↦ none | some t ↦ t.fd ])
            ≡ slot_fd (get_elem? (map (λ t. t.fd) slots) i)
      found [] i = refl
      found (t ∷ slots) zero = refl
      found (t ∷ slots) (suc i) = found slots i

  pub native_handle_inv :
      (ci fd : ℕ) (s : StreamServer K)
      → native_handle ci s ≡ some fd
      → (t : Slot) × (get_elem? s.slots ci ≡ some t) × (t.fd ≡ some fd)
  unfolding native_handle
  native_handle_inv ci fd s h = elim (Option-cases (get_elem? s.slots ci)) [
    | inl e ↦ absurd (grind (arith, rw (e, native_handle) at h))
    | inr (t, e) ↦ (t, e, rw (e, native_handle) at h)
  ]

  -- The system apart.
  pub native_handle_at :
      (ci : ℕ) (k : K) (s : StreamServer K)
      → native_handle ci (record s { kernel = k }) ≡ native_handle ci s
  unfolding native_handle
  native_handle_at ci k s = refl

  pub native_handle_of :
      (ci : ℕ) (t : Slot) (s : StreamServer K)
      → get_elem? s.slots ci ≡ some t
      → native_handle ci s ≡ t.fd
  unfolding native_handle
  native_handle_of ci t s e = rw (e, native_handle) refl

module _ {K : Type 0} (sys : Kernel K) (laws : IsKernel sys) (c : ℕ) where
  pub native_handle-flush :
      (ci : ℕ) (s : StreamServer K) → native_handle ci (flush sys c ci s) ≡ native_handle ci s
  native_handle-flush ci s =
      native_handle-map ci (flush sys c ci s)
      ∙ ap (λ l. slot_fd (get_elem? l ci)) (flush-slots sys c ci s)
      ∙ sym (native_handle-map ci s)

  retry_append-IsSound :
      (ci fd : ℕ) (bytes : Bytes) (s : StreamServer K)
      → native_handle ci s ≡ some fd
      → IsSound c s
      → IsSound c (retry_append sys c ci bytes s).0
  unfolding retry_append
  retry_append-IsSound ci fd bytes s h v =
      let (t, e, o) = native_handle_inv ci fd s h in
      elim (Option-cases (append_slot sys c ci bytes t s)) [
        | inl d ↦ rw (e, d, retry_append) v
        | inr (s1, d) ↦
            rw (e, d, retry_append) (append_slot-IsSound sys laws c ci bytes t fd s s1 e o v d)
      ]

  pub send-IsSound :
      (s : StreamServer K) (ci : ℕ) (bytes : Bytes)
      → IsSound c s
      → IsSound c (send sys c s ci bytes).0
  unfolding send
  send-IsSound s ci bytes v = elim (Option-cases (get_elem? s.slots ci)) [
    | inl e ↦ rw (e, send) v
    | inr (t, e) ↦ elim (Option-cases t.fd) [
      | inl o ↦ rw (e, o, send) v
      | inr (fd, o) ↦ elim (Option-cases (append_slot sys c ci bytes t s)) [
        | inr (s1, d) ↦
            rw (e, o, d, send) (append_slot-IsSound sys laws c ci bytes t fd s s1 e o v d)
        | inl d ↦
            rw (e, o, d, send)
              (retry_append-IsSound ci fd bytes (flush sys c ci s)
                (native_handle-flush ci s ∙ native_handle_of ci t s e ∙ o)
                (flush-IsSound sys laws c ci s v))
      ]
    ]
  ]

  shut-IsFlowing :
      (ci fd : ℕ) (t : Slot) (acts : List Act)
      → IsFlowing c acts ci t
      → IsFlowing c (closed_fd fd ∷ acts) ci (shut t)
  unfolding clear
  shut-IsFlowing ci fd t acts h = record {
    ring = (clear-contents c t.ring h.ring).0;
    open_one = λ x e. absurd (grind (arith, e));
    free_one = λ e. (refl, refl);
  }

  IsAbout-closed : (ci fd : ℕ) → IsAbout ci (closed_fd fd)
  unfolding queued_bytes wrote_bytes
  IsAbout-closed ci fd i acts n = (refl, refl)

  pub release_slot-IsSound :
      (ci fd : ℕ) (s : StreamServer K)
      → native_handle ci s ≡ some fd
      → IsSound c s
      → IsSound c (release_slot sys c ci fd s)
  unfolding release_slot
  release_slot-IsSound ci fd s h (f, b) =
      let (t, e, o) = native_handle_inv ci fd s h in
      rw (e, release_slot)
        (
          put-Flows c ci (closed_fd fd) t (shut t) s _ f e (IsAbout-closed ci fd)
              (shut-IsFlowing ci fd t s.acts) refl refl,
          put-Balanced c (λ x. 0) (λ x. 0) ci (closed_fd fd) t (shut t) s _ b e
              (λ x. rw o (omega arith)) refl refl,
        )

  pub hang_up-IsSound :
      (ci fd : ℕ) (s : StreamServer K)
      → native_handle ci s ≡ some fd
      → IsSound c s
      → IsSound c (release_slot sys c ci fd (flush sys c ci s))
  hang_up-IsSound ci fd s h v =
      release_slot-IsSound ci fd (flush sys c ci s) (native_handle-flush ci s ∙ h)
        (flush-IsSound sys laws c ci s v)

  pub close-IsSound : (s : StreamServer K) (ci : ℕ) → IsSound c s → IsSound c (close sys c s ci)
  unfolding close
  close-IsSound s ci v = elim (Option-cases (native_handle ci s)) [
    | inl h ↦ rw (h, close) v
    | inr (fd, h) ↦ rw (h, close) (hang_up-IsSound ci fd s h v)
  ]
