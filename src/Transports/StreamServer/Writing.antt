-- ===== src/Transports/StreamServer/Writing.antt =====
-- include/minimosq/transports/posix/stream_server.hpp: the write at the end of a pass.
use minimosq_mqtt.Prelude.{
  ℕ, zero, suc, ◌+◌, ◌≤◌, ◌<◌, ◌≡◌, refl, sym, ap, ◌∙◌, ◌≢◌, ◌⊎◌, inl, inr, Bool, true, false, none,
  some, List, arith, Bool-cases, Option-cases, length, get_elem?, get_elem?-map, map, map-set_same,
  map-set, get_elem?-map_inv, get_elem?-lt, get_elem?-set_inv, length-map,
}
use minimosq_mqtt.Transports.Kernel.{Kernel}
use minimosq_mqtt.Transports.Kernel.Flush.{IsKernel, drain}
use minimosq_mqtt.Transports.StreamServer.{
  Slot, StreamServer, put_slot, flush, flush_slot, flush_all, flush_from, flush_dirty,
}
use minimosq_mqtt.Transports.Count.{sum_of-set}
use minimosq_mqtt.Transports.StreamServer.Ledger.{Flows, Balanced, IsSound, holds}
use minimosq_mqtt.Transports.StreamServer.Streams.{flush-IsSound}

module _ {K : Type 0} (sys : Kernel K) (laws : IsKernel sys) (c : ℕ) where
  -- The flag is reset on an open slot.
  abbrev marked : ℕ → Slot → StreamServer K → StreamServer K
  marked ci t s = put_slot ci (record t { dirty = false }) s

  marked-IsSound :
      (ci fd : ℕ) (t : Slot) (s : StreamServer K)
      → get_elem? s.slots ci ≡ some t
      → t.fd ≡ some fd
      → IsSound c s
      → IsSound c (marked ci t s)
  unfolding Flows Balanced
  marked-IsSound ci fd t s e o (f, b) = (
    λ i x at. elim (get_elem?-set_inv s.slots ci i (record t { dirty = false }) x at) [
      | inl (d, w, l) ↦
          let h = f ci t e in
          rw (d, w)
            (record {
              ring = h.ring;
              open_one = h.open_one;
              free_one = λ n. absurd (grind (arith, o, n));
            })
      | inr (n, at') ↦ f i x at'
    ],
    λ x.
        omega
          (arith, b x, sum_of-set (λ t. holds x t.fd) s.slots ci t (record t { dirty = false }) e),
  )

  flush_dirty-IsSound :
      (ci : ℕ) (s : StreamServer K) → IsSound c s → IsSound c (flush_dirty sys c ci s)
  unfolding flush_dirty
  flush_dirty-IsSound ci s v = elim (Option-cases (get_elem? s.slots ci)) [
    | inl e ↦ rw (e, flush_dirty) v
    | inr (t, e) ↦ elim (Option-cases t.fd) [
      | inl o ↦ rw (e, o, flush_dirty) v
      | inr (fd, o) ↦ elim (Bool-cases t.dirty) [
        | inl d ↦
            rw (e, o, d, flush_dirty)
              (flush-IsSound sys laws c ci _ (marked-IsSound ci fd t s e o v))
        | inr d ↦ rw (e, o, d, flush_dirty) v
      ]
    ]
  ]

  flush_from-IsSound :
      (n ci : ℕ) (s : StreamServer K) → IsSound c s → IsSound c (flush_from sys c n ci s)
  unfolding flush_from
  flush_from-IsSound zero ci s v = v
  flush_from-IsSound (suc n) ci s v =
      flush_from-IsSound n (suc ci) (flush_dirty sys c ci s) (flush_dirty-IsSound ci s v)

  pub flush_all-IsSound : (s : StreamServer K) → IsSound c s → IsSound c (flush_all sys c s)
  unfolding flush_all
  flush_all-IsSound s v = flush_from-IsSound (length s.slots) 0 s v

  -- The flags of the slots.
  abbrev flags : StreamServer K → List Bool
  flags s = map (λ t. t.dirty) s.slots

  flags-flush : (ci : ℕ) (s : StreamServer K) → flags (flush sys c ci s) ≡ flags s
  unfolding flush flush_slot
  flags-flush ci s = elim (Option-cases (get_elem? s.slots ci)) [
    | inl e ↦ rw (e, flush) refl
    | inr (t, e) ↦ elim (Option-cases t.fd) [
      | inl o ↦ rw (e, o, flush) refl
      | inr (fd, o) ↦
          rw (e, o, flush)
            (map-set_same (λ t. t.dirty) s.slots ci t
              (record t { ring = (drain sys c fd t.ring s.kernel).ring }) e refl)
    ]
  ]

  not_free :
      (ci i : ℕ) (s : StreamServer K)
      → get_elem? s.slots ci ≡ none
      → get_elem? (flags s) i ≡ some true
      → i ≢ ci
  not_free ci i s e h d =
      let (t, at, w) = get_elem?-map_inv (λ t. t.dirty) s.slots i true h in grind (arith, at, e, d)

  not_clean :
      (ci i : ℕ) (t : Slot) (s : StreamServer K)
      → get_elem? s.slots ci ≡ some t
      → t.dirty ≡ false
      → get_elem? (flags s) i ≡ some true
      → i ≢ ci
  not_clean ci i t s e o h d =
      let (u, at, w) = get_elem?-map_inv (λ t. t.dirty) s.slots i true h in
      grind (arith, at, e, d, w, o)

  marked_off :
      (ci i : ℕ) (t : Slot) (s : StreamServer K)
      → get_elem? (flags (marked ci t s)) i ≡ some true
      → (i ≢ ci) × (get_elem? (flags s) i ≡ some true)
  marked_off ci i t s h =
      let put = map-set (λ t. t.dirty) s.slots ci (record t { dirty = false }) in
      elim (get_elem?-set_inv (flags s) ci i false true (ap (λ l. get_elem? l i) (sym put) ∙ h)) [
        | inl (d, w, l) ↦ absurd (grind (arith, w))
        | inr k ↦ k
      ]

  -- A slot that is dirty behind `flush_dirty` was, and is another one.
  still_dirty :
      (ci i : ℕ) (s : StreamServer K)
      → Flows c s
      → get_elem? (flags (flush_dirty sys c ci s)) i ≡ some true
      → (i ≢ ci) × (get_elem? (flags s) i ≡ some true)
  unfolding flush_dirty Flows
  still_dirty ci i s f h = elim (Option-cases (get_elem? s.slots ci)) [
    | inl e ↦ let was = rw (e, flush_dirty) at h in (not_free ci i s e was, was)
    | inr (t, e) ↦ elim (Option-cases t.fd) [
      | inl o ↦
          let was = rw (e, o, flush_dirty) at h in
          (not_clean ci i t s e ((f ci t e).free_one o).1 was, was)
      | inr (fd, o) ↦ elim (Bool-cases t.dirty) [
        | inl d ↦ marked_off ci i t s (
            ap (λ l. get_elem? l i) (sym (flags-flush ci (marked ci t s)))
            ∙ (rw (e, o, d, flush_dirty) at h))
        | inr d ↦ let was = rw (e, o, d, flush_dirty) at h in (not_clean ci i t s e d was, was)
      ]
    ]
  ]

  dirty_from :
      (n ci i : ℕ) (s : StreamServer K)
      → IsSound c s
      → get_elem? (flags (flush_from sys c n ci s)) i ≡ some true
      → ((i < ci) ⊎ (ci + n ≤ i)) × (get_elem? (flags s) i ≡ some true)
  unfolding flush_from
  dirty_from zero ci i s v h = (ground arith, h)
  dirty_from (suc n) ci i s v h =
      let s1 = flush_dirty sys c ci s in
      let (out, old) = dirty_from n (suc ci) i s1 (flush_dirty-IsSound ci s v) h in
      let (ne, was) = still_dirty ci i s v.0 old in (grind (arith, out, ne), was)

  -- No slot is left dirty.
  pub flush_all-clean :
      (s : StreamServer K) (ci : ℕ) (t : Slot)
      → IsSound c s
      → get_elem? (flush_all sys c s).slots ci ≡ some t
      → t.dirty ≡ false
  unfolding flush_all
  flush_all-clean s ci t v at = elim (Bool-cases t.dirty) [
    | inr d ↦ d
    | inl d ↦
        let here = get_elem?-map (λ t. t.dirty) (flush_all sys c s).slots ci t at ∙ ap some d in
        let (out, was) = dirty_from (length s.slots) 0 ci s v here in
        let l = get_elem?-lt (flags s) ci true was in
        absurd (grind (arith, out, l, length-map (λ t. t.dirty) s.slots))
  ]
