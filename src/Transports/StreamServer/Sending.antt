-- ===== src/Transports/StreamServer/Sending.antt =====
-- include/minimosq/transports/posix/stream_server.hpp: when `send` takes a span and when it refuses it, and
-- the state of a new transport.
use minimosq_mqtt.Prelude.{
  ℕ, zero, suc, ◌+◌, ◌<◌, ◌≡◌, refl, sym, ap, subst, ◌∙◌, ◌⊎◌, ◌++◌, inl, inr, true, false, none,
  some, [], arith, Option-cases, Bytes, length, get_elem?, replicate, get_elem?-set_self,
  get_elem?-lt,
}
use minimosq_mqtt.Transports.Ring.{new_ring, append}
use minimosq_mqtt.Transports.Ring.Queue.{
  IsRing, contents, append-contents, append_refuses, new_ring-IsRing,
}
use minimosq_mqtt.Transports.Kernel.Drained.{drain-Keeps}
use minimosq_mqtt.Transports.Kernel.{Kernel}
use minimosq_mqtt.Transports.Kernel.Flush.{IsKernel, drain}
use minimosq_mqtt.Transports.StreamServer.{
  Slot, queued, act, put_slot, StreamServer, flush, flush_slot, append_slot, retry_append, send,
  new_server, new_slot,
}
use minimosq_mqtt.Transports.Count.{sum_of}
use minimosq_mqtt.Transports.StreamServer.Ledger.{Flows, Balanced, IsSound, holds, IsFlowing}

-- Every slot of a new transport.
get_elem?-replicate :
    {A : Type 0} (n i : ℕ) (a b : A) → get_elem? (replicate n a) i ≡ some b → b ≡ a
get_elem?-replicate zero i a b e = absurd (grind (arith, e))
get_elem?-replicate (suc n) zero a b e = grind (arith, e)
get_elem?-replicate (suc n) (suc i) a b e = get_elem?-replicate n i a b e

sum_of-replicate : {A : Type 0} (f : A → ℕ) (n : ℕ) (a : A) → f a ≡ 0 → sum_of f (replicate n a) ≡ 0
unfolding sum_of
sum_of-replicate f zero a e = refl
sum_of-replicate f (suc n) a e = omega (arith, e, sum_of-replicate f n a e)

pub new_server-IsSound : {K : Type 0} (n c : ℕ) (k : K) → 0 < c → IsSound c (new_server n c k)
unfolding new_server Flows Balanced sum_of new_ring
new_server-IsSound n c k l = (
  λ ci t e.
      let same = get_elem?-replicate n ci (new_slot c) t e in
      subst (λ x. IsFlowing c [] ci x) {x = new_slot c} {y = t} (sym same)
        (record {
          ring = (new_ring-IsRing c l).0;
          open_one = λ fd o. absurd (grind (arith, o));
          free_one = λ o. (refl, refl);
        }),
  λ fd. omega (arith, sum_of-replicate (λ t. holds fd t.fd) n (new_slot c) refl),
)

module _ {K : Type 0} (sys : Kernel K) (c : ℕ) where
  flush_open :
      (ci fd : ℕ) (t : Slot) (s : StreamServer K)
      → get_elem? s.slots ci ≡ some t
      → t.fd ≡ some fd
      → flush sys c ci s ≡ flush_slot sys c ci fd t s
  unfolding flush
  flush_open ci fd t s e o = grind (arith, e, o)

  -- The slot behind a flush.
  flush-slot :
      (ci fd : ℕ) (t : Slot) (s : StreamServer K)
      → get_elem? s.slots ci ≡ some t
      → t.fd ≡ some fd
      → get_elem? (flush sys c ci s).slots ci
        ≡ some (record t { ring = (drain sys c fd t.ring s.kernel).ring })
  unfolding flush_slot
  flush-slot ci fd t s e o =
      ap (λ x. get_elem? x.slots ci) (flush_open ci fd t s e o)
      ∙ get_elem?-set_self s.slots ci (record t { ring = (drain sys c fd t.ring s.kernel).ring })
          (get_elem?-lt s.slots ci t e)

  -- The slot is open on the descriptor, and its ring is valid and holds these bytes.
  abbrev pub Holds : ℕ → ℕ → Bytes → StreamServer K → Type 0
  Holds ci fd bs s =
      (u : Slot) × (get_elem? s.slots ci ≡ some u)
      × (u.fd ≡ some fd)
      × IsRing c u.ring
      × (contents c u.ring ≡ bs)

  -- The span is at the end of the ring, or it is not there and had no room.
  appended-Holds :
      (ci fd : ℕ) (bytes : Bytes) (t : Slot) (s : StreamServer K)
      → get_elem? s.slots ci ≡ some t
      → t.fd ≡ some fd
      → IsRing c t.ring
      → ((s1 : StreamServer K) × (append_slot sys c ci bytes t s ≡ some s1)
          × Holds ci fd (contents c t.ring ++ bytes) s1)
        ⊎ ((append_slot sys c ci bytes t s ≡ none)
            × (c < length (contents c t.ring) + length bytes))
  unfolding append_slot
  appended-Holds ci fd bytes t s e o v = elim (Option-cases (append c bytes t.ring)) [
    | inl d ↦ inr (rw (d, append_slot) refl, (append_refuses c bytes t.ring).0 d)
    | inr (r, d) ↦
        let (w, held) = append-contents c bytes t.ring r v d in
        let u : Slot = record t { ring = r; dirty = true } in
        inl (
          act (queued ci bytes) (put_slot ci u s),
          rw (d, append_slot) refl,
          (u, get_elem?-set_self s.slots ci u (get_elem?-lt s.slots ci t e), o, w, held),
        )
  ]

  -- `send` on an open slot with a valid ring, where a write takes no more than it is given, an interrupted
  -- one uses a signal up and a write brings none: it answers true with the span at the end of what the ring
  -- held; or the span did not fit, a part of the ring was written from its front, and it answers true with
  -- the span at the end of the rest, or false with the rest as it is, where the span does not fit behind it.
  pub send_outcome :
      (laws : IsKernel sys) (s : StreamServer K) (ci fd : ℕ) (bytes : Bytes) (t : Slot)
      → get_elem? s.slots ci ≡ some t
      → t.fd ≡ some fd
      → IsRing c t.ring
      → (((send sys c s ci bytes).1 ≡ true)
          × Holds ci fd (contents c t.ring ++ bytes) (send sys c s ci bytes).0)
        ⊎ ((c < length (contents c t.ring) + length bytes)
            × (rest : Bytes) × ((drain sys c fd t.ring s.kernel).written ++ rest
                ≡ contents c t.ring)
            × ((((send sys c s ci bytes).1 ≡ true)
                  × Holds ci fd (rest ++ bytes) (send sys c s ci bytes).0)
                ⊎ (((send sys c s ci bytes).1 ≡ false)
                    × (c < length rest + length bytes)
                    × Holds ci fd rest (send sys c s ci bytes).0)))
  unfolding send retry_append
  send_outcome laws s ci fd bytes t e o v =
      let d = drain sys c fd t.ring s.kernel in
      let (w, split) = drain-Keeps sys c laws fd t.ring s.kernel v in
      let after = flush-slot ci fd t s e o in
      elim (appended-Holds ci fd bytes t s e o v) [
        | inl (s1, a, held) ↦ inl (rw (e, o, a, send) (refl, held))
        | inr (a, full) ↦
            let t1 : Slot = record t { ring = d.ring } in
            inr (
              full,
              contents c d.ring,
              split,
              elim (appended-Holds ci fd bytes t1 (flush sys c ci s) after o w) [
                | inl (s1, a1, held) ↦
                    inl (rw (e, o, a, send, after, a1, retry_append) (refl, held))
                | inr (a1, none_left) ↦ inr (
                    rw (e, o, a, send, after, a1, retry_append)
                      (refl, none_left, (t1, after, o, w, refl)))
              ],
            )
      ]
