-- ===== src/Transports/Pipe/Calls.antt =====
-- include/minimosq/transports/posix/pipe.hpp: what `flush`, `send` and `close` keep.
use minimosq_mqtt.Prelude.{
  ℕ, ◌≡◌, refl, sym, ap, subst, ◌∙◌, inl, inr, true, false, some, ◌++◌, append_assoc, arith,
  Bool-cases, Option-cases, Bytes,
}
use minimosq_mqtt.Transports.Ring.{append}
use minimosq_mqtt.Transports.Ring.Queue.{IsRing, contents, append-contents}
use minimosq_mqtt.Transports.Kernel.{Kernel}
use minimosq_mqtt.Transports.Kernel.Flush.{IsKernel, drain}
use minimosq_mqtt.Transports.Kernel.Drained.{drain-Keeps}
use minimosq_mqtt.Transports.Count.{sum_of}
use minimosq_mqtt.Transports.Pipe.{
  queued, wrote, Pipe, act, is_open, close_fds, flush, try_append, send, close, flush_pass,
}
use minimosq_mqtt.Transports.Pipe.Streams.{
  queued_bytes, wrote_bytes, Balanced, IsSound, close_fds-IsOff,
}

module _ {K : Type 0} (sys : Kernel K) (laws : IsKernel sys) (c : ℕ) where
  written-IsSound :
      (fd : ℕ) (p : Pipe K)
      → p.wfd ≡ some fd
      → IsSound c p
      → let d = drain sys c fd p.ring p.kernel in
        IsSound c (act (wrote d.written) (record p { ring = d.ring; kernel = d.kernel }))
  unfolding Balanced sum_of queued_bytes wrote_bytes
  written-IsSound fd p o (f, b) =
      let d = drain sys c fd p.ring p.kernel in
      let (v, whole) = drain-Keeps sys c laws fd p.ring p.kernel f.ring in
      (
        record {
          ring = v;
          paired = f.paired;
          stream = λ e.
              f.stream e
              ∙ ap (◌++◌ (wrote_bytes p.acts)) (sym whole)
              ∙ sym (append_assoc (wrote_bytes p.acts) d.written (contents c d.ring));
          idle = λ e. absurd (grind (arith, o, e));
        },
        λ x. omega (arith, b x),
      )

  pub flush-IsSound : (p : Pipe K) → IsSound c p → IsSound c (flush sys c p)
  unfolding flush
  flush-IsSound p h = elim (Option-cases p.wfd) [
    | inl o ↦ rw (o, flush) h
    | inr (fd, o) ↦ rw (o, flush) (written-IsSound fd p o h)
  ]

  flush-wfd : (p : Pipe K) → (flush sys c p).wfd ≡ p.wfd
  unfolding flush
  flush-wfd p = elim (Option-cases p.wfd) [
    | inl o ↦ rw (o, flush) o
    | inr (fd, o) ↦ rw (o, flush) o
  ]

  flush-dirty : (p : Pipe K) → (flush sys c p).dirty ≡ p.dirty
  unfolding flush
  flush-dirty p = elim (Option-cases p.wfd) [
    | inl o ↦ rw (o, flush) refl
    | inr (fd, o) ↦ rw (o, flush) refl
  ]

  pass_off : (p : Pipe K) → p.dirty ≡ false → flush_pass sys c p ≡ p
  unfolding flush_pass
  pass_off p d = grind (arith, d)

  try_append-IsSound :
      (bytes : Bytes) (p q : Pipe K)
      → is_open p.wfd ≡ true
      → IsSound c p
      → try_append sys c bytes p ≡ some q
      → IsSound c q
  unfolding try_append Balanced sum_of queued_bytes wrote_bytes
  try_append-IsSound bytes p q o (f, b) h = elim (Option-cases (append c bytes p.ring)) [
    | inl d ↦ absurd (grind (arith, rw (d, try_append) at h))
    | inr (ring, d) ↦
        let (v, whole) = append-contents c bytes p.ring ring f.ring d in
        let p1 : Pipe K = act (queued bytes) (record p { ring = ring; dirty = true }) in
        subst (IsSound c) {x = p1} {y = q} (grind (arith, rw (d, try_append) at h)) (
          record {
            ring = v;
            paired = f.paired;
            stream = λ e.
                ap (λ q. q ++ bytes) (f.stream e)
                ∙ append_assoc (wrote_bytes p.acts) (contents c p.ring) bytes
                ∙ ap (◌++◌ (wrote_bytes p.acts)) (sym whole);
            idle = λ e. absurd (grind (arith, o, e));
          },
          λ x. omega (arith, b x),
        )
  ]

  pub send-IsSound :
      (p : Pipe K) (ci : ℕ) (bytes : Bytes) → IsSound c p → IsSound c (send sys c p ci bytes).0
  unfolding send
  send-IsSound p ci bytes h = elim (Bool-cases (is_open p.wfd)) [
    | inr o ↦ rw (o, send) h
    | inl o ↦ elim (Option-cases (try_append sys c bytes p)) [
      | inr (q, d) ↦ rw (o, d, send) (try_append-IsSound bytes p q o h d)
      | inl d ↦
          let h1 = flush-IsSound p h in
          elim (Option-cases (try_append sys c bytes (flush sys c p))) [
            | inl e ↦ rw (o, d, e, send) h1
            | inr (q, e) ↦
                rw (o, d, e, send)
                  (try_append-IsSound bytes (flush sys c p) q (ap is_open (flush-wfd p) ∙ o) h1 e)
          ]
    ]
  ]

  pub close_fds-IsSound : (p : Pipe K) → IsSound c p → IsSound c (close_fds sys p)
  close_fds-IsSound p h = let off = close_fds-IsOff sys c p h in (off.0, off.1)

  pub close-IsSound : (p : Pipe K) (ci : ℕ) → IsSound c p → IsSound c (close sys c p ci)
  unfolding close
  close-IsSound p ci h = close_fds-IsSound _ (flush-IsSound p h)

  -- What leaves the descriptors, the ring, the flag and the acts leaves all this.
  pub kept-IsSound :
      (p q : Pipe K)
      → q.rfd ≡ p.rfd
      → q.wfd ≡ p.wfd
      → q.ring ≡ p.ring
      → (is_open p.wfd ≡ false → q.dirty ≡ p.dirty)
      → q.acts ≡ p.acts
      → IsSound c p
      → IsSound c q
  unfolding Balanced
  kept-IsSound p q r w o d a (f, b) = (
    record {
      ring = subst (IsRing c) (sym o) f.ring;
      paired = rw (r, w) f.paired;
      stream = λ e. rw (o, a) (f.stream (ap is_open (sym w) ∙ e));
      idle = λ e.
          let off = ap is_open (sym w) ∙ e in
          (ap (λ x. x.len) o ∙ (f.idle off).0, d off ∙ (f.idle off).1);
    },
    λ fd. rw (r, w, a) (b fd),
  )

  -- The flag falls, and the ring is written if it was set.
  pub flush_pass-IsSound :
      (p : Pipe K)
      → IsSound c p
      → IsSound c (flush_pass sys c p) × ((flush_pass sys c p).dirty ≡ false)
  unfolding flush_pass
  flush_pass-IsSound p h = elim (Bool-cases p.dirty) [
    | inl d ↦
        let p1 : Pipe K = record p { dirty = false } in
        let h1 = kept-IsSound p p1 refl refl refl (λ o. sym (h.0.idle o).1) refl h in
        rw (d, flush_pass) (flush-IsSound p1 h1, flush-dirty p1)
    | inr d ↦ subst (λ q. IsSound c q × (q.dirty ≡ false)) (sym (pass_off p d)) (h, d)
  ]
