-- ===== src/Transports/StreamServer/Streams.antt =====
-- include/minimosq/transports/posix/stream_server.hpp: `flush` and the writes to a slot keep what holds of
-- every slot and of the descriptors.
use minimosq_mqtt.Prelude.{
  ℕ, ◌+◌, ◌≡◌, refl, sym, ap, subst, ◌∙◌, inl, inr, true, some, List, ◌∷◌, ◌++◌, append_assoc,
  arith, ◌==◌, if◌then◌else◌, Option-cases, Bytes, set, get_elem?, get_elem?-set_inv,
}
use minimosq_mqtt.Transports.Ring.{OutRing, append}
use minimosq_mqtt.Transports.Ring.Queue.{contents, append-contents}
use minimosq_mqtt.Transports.Kernel.{Kernel}
use minimosq_mqtt.Transports.Kernel.Flush.{IsKernel, drain}
use minimosq_mqtt.Transports.Kernel.Drained.{drain-Keeps}
use minimosq_mqtt.Transports.StreamServer.{
  Slot, Act, queued, wrote, StreamServer, act, put_slot, flush, flush_slot, append_slot,
}
use minimosq_mqtt.Transports.Count.{sum_of, sum_of-set}
use minimosq_mqtt.Transports.StreamServer.Ledger.{
  queued_bytes, wrote_bytes, gives, closes, holds, IsFlowing, Flows, Balanced, IsSound, IsAbout,
}

module _ {K : Type 0} (c : ℕ) where
  -- A write to a slot, with what is noted of it.
  pub put-Flows :
      (ci : ℕ) (a : Act) (t u : Slot) (s s1 : StreamServer K)
      → Flows c s
      → get_elem? s.slots ci ≡ some t
      → IsAbout ci a
      → (IsFlowing c s.acts ci t → IsFlowing c (a ∷ s.acts) ci u)
      → s1.slots ≡ set s.slots ci u
      → s1.acts ≡ a ∷ s.acts
      → Flows c s1
  unfolding Flows
  put-Flows ci a t u s s1 h e about ok se ae i x at =
      subst (λ acts. IsFlowing c acts i x) (sym ae)
        (elim (get_elem?-set_inv s.slots ci i u x (ap (λ l. get_elem? l i) (sym se) ∙ at)) [
          | inl (d, w, l) ↦
              subst (λ j. IsFlowing c (a ∷ s.acts) j x) (sym d)
                (subst (IsFlowing c (a ∷ s.acts) ci) {x = u} {y = x} (sym w) (ok (h ci t e)))
          | inr (n, at') ↦
              let old = h i x at' in
              let (q, w) = about i s.acts n in
              record {
                ring = old.ring;
                open_one = λ fd o. rw (q, w) (old.open_one fd o);
                free_one = old.free_one;
              }
        ])

  pub put-Balanced :
      (hand hand' : ℕ → ℕ) (ci : ℕ) (a : Act) (t u : Slot) (s s1 : StreamServer K)
      → Balanced hand s
      → get_elem? s.slots ci ≡ some t
      → ((fd : ℕ) → gives fd a + holds fd t.fd + hand fd ≡ closes fd a + holds fd u.fd + hand' fd)
      → s1.slots ≡ set s.slots ci u
      → s1.acts ≡ a ∷ s.acts
      → Balanced hand' s1
  unfolding Balanced sum_of
  put-Balanced hand hand' ci a t u s s1 h e moved se ae fd =
      let swap = sum_of-set (λ t. holds fd t.fd) s.slots ci t u e in
      rw (se, ae) (omega (arith, swap, h fd, moved fd))

  -- An act without a slot.
  pub note-Flows :
      (a : Act) (s s1 : StreamServer K)
      → Flows c s
      → ((i : ℕ) (acts : List Act)
          → (queued_bytes i (a ∷ acts) ≡ queued_bytes i acts)
            × (wrote_bytes i (a ∷ acts) ≡ wrote_bytes i acts))
      → s1.slots ≡ s.slots
      → s1.acts ≡ a ∷ s.acts
      → Flows c s1
  unfolding Flows
  note-Flows a s s1 h about se ae i x at =
      let old = h i x (ap (λ l. get_elem? l i) (sym se) ∙ at) in
      let (q, w) = about i s.acts in
      subst (λ acts. IsFlowing c acts i x) (sym ae)
        (record {
          ring = old.ring;
          open_one = λ fd o. rw (q, w) (old.open_one fd o);
          free_one = old.free_one;
        })

  pub note-Balanced :
      (hand hand' : ℕ → ℕ) (a : Act) (s s1 : StreamServer K)
      → Balanced hand s
      → ((fd : ℕ) → gives fd a + hand fd ≡ closes fd a + hand' fd)
      → s1.slots ≡ s.slots
      → s1.acts ≡ a ∷ s.acts
      → Balanced hand' s1
  unfolding Balanced sum_of
  note-Balanced hand hand' a s s1 h moved se ae fd = rw (se, ae) (omega (arith, h fd, moved fd))

  -- What leaves the slots and the acts leaves all this.
  pub kept-IsSound :
      (hand : ℕ → ℕ) (s s1 : StreamServer K)
      → s1.slots ≡ s.slots
      → s1.acts ≡ s.acts
      → Flows c s × Balanced hand s
      → Flows c s1 × Balanced hand s1
  unfolding Flows Balanced
  kept-IsSound hand s s1 se ae (f, b) = (
    λ i x at.
        subst (λ acts. IsFlowing c acts i x) (sym ae)
          (f i x (ap (λ l. get_elem? l i) (sym se) ∙ at)),
    λ fd. rw (se, ae) (b fd),
  )

module _ {K : Type 0} (sys : Kernel K) (laws : IsKernel sys) (c : ℕ) where
  IsAbout-wrote : (ci : ℕ) (bytes : Bytes) → IsAbout ci (wrote ci bytes)
  unfolding queued_bytes wrote_bytes
  IsAbout-wrote ci bytes i acts n = (refl, ground (arith, n))

  IsAbout-queued : (ci : ℕ) (bytes : Bytes) → IsAbout ci (queued ci bytes)
  unfolding queued_bytes wrote_bytes
  IsAbout-queued ci bytes i acts n = (ground (arith, n), refl)

  at_self : {A : Type 0} (i : ℕ) (x y : A) → (if i == i then x else y) ≡ x
  at_self i x y = ground arith

  -- The slot, written out: what is written leaves the ring.
  drained-IsFlowing :
      (ci fd : ℕ) (t : Slot) (k : K) (acts : List Act)
      → t.fd ≡ some fd
      → IsFlowing c acts ci t
      → IsFlowing c
          (wrote ci (drain sys c fd t.ring k).written ∷ acts)
          ci
          (record t { ring = (drain sys c fd t.ring k).ring })
  unfolding queued_bytes wrote_bytes
  drained-IsFlowing ci fd t k acts o h =
      let d = drain sys c fd t.ring k in
      let (v, whole) = drain-Keeps sys c laws fd t.ring k h.ring in
      record {
        ring = v;
        open_one = λ x e.
            h.open_one x e
            ∙ ap (◌++◌ (wrote_bytes ci acts)) (sym whole)
            ∙ sym (append_assoc (wrote_bytes ci acts) d.written (contents c d.ring))
            ∙ ap (λ w. w ++ contents c d.ring) (sym (at_self ci _ _));
        free_one = λ e. absurd (grind (arith, o, e));
      }

  flush_slot-IsSound :
      (ci fd : ℕ) (t : Slot) (s : StreamServer K)
      → get_elem? s.slots ci ≡ some t
      → t.fd ≡ some fd
      → IsSound c s
      → IsSound c (flush_slot sys c ci fd t s)
  unfolding flush_slot
  flush_slot-IsSound ci fd t s e o (f, b) =
      let u : Slot = record t { ring = (drain sys c fd t.ring s.kernel).ring } in
      let a = wrote ci (drain sys c fd t.ring s.kernel).written in
      (
        put-Flows c ci a t u s _ f e (IsAbout-wrote ci _)
            (drained-IsFlowing ci fd t s.kernel s.acts o) refl refl,
        put-Balanced c (λ fd. 0) (λ fd. 0) ci a t u s _ b e (λ x. refl) refl refl,
      )

  pub flush-IsSound : (ci : ℕ) (s : StreamServer K) → IsSound c s → IsSound c (flush sys c ci s)
  unfolding flush
  flush-IsSound ci s h = elim (Option-cases (get_elem? s.slots ci)) [
    | inl e ↦ rw (e, flush) h
    | inr (t, e) ↦ elim (Option-cases t.fd) [
      | inl o ↦ rw (e, o, flush) h
      | inr (fd, o) ↦ rw (e, o, flush) (flush_slot-IsSound ci fd t s e o h)
    ]
  ]

  queued-IsFlowing :
      (ci : ℕ) (bytes : Bytes) (t : Slot) (ring : OutRing) (fd : ℕ) (acts : List Act)
      → t.fd ≡ some fd
      → append c bytes t.ring ≡ some ring
      → IsFlowing c acts ci t
      → IsFlowing c (queued ci bytes ∷ acts) ci (record t { ring = ring; dirty = true })
  unfolding queued_bytes wrote_bytes
  queued-IsFlowing ci bytes t ring fd acts o e h =
      let (v, whole) = append-contents c bytes t.ring ring h.ring e in
      record {
        ring = v;
        open_one = λ x d.
            at_self ci _ _
            ∙ ap (λ q. q ++ bytes) (h.open_one x d)
            ∙ append_assoc (wrote_bytes ci acts) (contents c t.ring) bytes
            ∙ ap (◌++◌ (wrote_bytes ci acts)) (sym whole);
        free_one = λ e. absurd (grind (arith, o, e));
      }

  pub append_slot-IsSound :
      (ci : ℕ) (bytes : Bytes) (t : Slot) (fd : ℕ) (s s1 : StreamServer K)
      → get_elem? s.slots ci ≡ some t
      → t.fd ≡ some fd
      → IsSound c s
      → append_slot sys c ci bytes t s ≡ some s1
      → IsSound c s1
  unfolding append_slot
  append_slot-IsSound ci bytes t fd s s1 e o (f, b) h =
      elim (Option-cases (append c bytes t.ring)) [
        | inl d ↦ absurd (grind (arith, rw (d, append_slot) at h))
        | inr (ring, d) ↦
            let u : Slot = record t { ring = ring; dirty = true } in
            subst (IsSound c) (grind (arith, rw (d, append_slot) at h)) (
              put-Flows c ci (queued ci bytes) t u s (act (queued ci bytes) (put_slot ci u s)) f e
                  (IsAbout-queued ci bytes) (queued-IsFlowing ci bytes t ring fd s.acts o d) refl
                  refl,
              put-Balanced c (λ fd. 0) (λ fd. 0) ci (queued ci bytes) t u s
                  (act (queued ci bytes) (put_slot ci u s)) b e (λ x. refl) refl refl,
            )
      ]
