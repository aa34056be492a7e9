-- ===== src/Transports/Kernel/Drained.antt =====
-- include/minimosq/transports/posix/stream_server.hpp and pipe.hpp: what the loop of `flush` writes, and that
-- it ends.
use minimosq_mqtt.Transports.Kernel.Flush.{
  Drain, answered, drain_round, drain_loop, drain_fuel, drain, IsKernel,
}
use minimosq_mqtt.Transports.Ring.{OutRing, is_empty, front_chunk, consume}
use minimosq_mqtt.Transports.Ring.Queue.{
  IsRing, contents, consume-contents, front_chunk-contents, no_contents,
}
use minimosq_mqtt.Transports.Rounds.{go_on, stop, outcome, Round-cases}
use minimosq_mqtt.Transports.Kernel.{Kernel, Answer, done, failed, eintr, is_interrupted}
use minimosq_mqtt.Prelude.{
  ℕ, zero, suc, ◌+◌, ◌≤◌, ◌<◌, ◌≡◌, refl, sym, ap, subst, ◌∙◌, ◌⊎◌, inl, inr, Bool, true, false,
  not, some, [], ◌∷◌, ◌++◌, append-nil, append_assoc, arith, Bool-cases, Bytes, length, take, drop,
  take-append-drop,
}

take-take : (n m : ℕ) (bs : Bytes) → n ≤ m → take n (take m bs) ≡ take n bs
take-take zero m bs l = refl
take-take (suc n) zero bs l = absurd (omega arith)
take-take (suc n) (suc m) [] l = refl
take-take (suc n) (suc m) (b ∷ bs) l = ap (◌∷◌ b) (take-take n m bs (omega arith))

-- A result that ends the loop of writes.
abbrev pub is_refusal : Answer ℕ → Bool
is_refusal (done zero) = true
is_refusal (done (suc n)) = false
is_refusal (failed e) = not (is_interrupted e)

emptied : (c : ℕ) (r : OutRing) → is_empty r ≡ true → contents c r ≡ []
unfolding is_empty
emptied c r e = no_contents c r (ground (arith, e))

written_all : (w rest all : Bytes) → rest ≡ [] → w ++ rest ≡ all → w ≡ all
written_all w rest all e s = sym (append-nil w) ∙ ap (◌++◌ w) (sym e) ∙ s

module _ {K : Type 0} (sys : Kernel K) (c : ℕ) where
  -- The bytes written and the bytes that the ring holds.
  abbrev pub total : Drain K → Bytes
  total d = d.written ++ contents c d.ring

  -- What a loop of writes keeps.
  abbrev pub Keeps : Drain K → Drain K → Type 0
  Keeps d e = IsRing c e.ring × (total e ≡ total d)

  taken-total :
      (n : ℕ) (d : Drain K)
      → IsRing c d.ring
      → n ≤ length (front_chunk c d.ring)
      → (d.written ++ take n (front_chunk c d.ring)) ++ contents c (consume c n d.ring) ≡ total d
  taken-total n d v l =
      let chunk = front_chunk c d.ring in
      let q = contents c d.ring in
      let first : take n chunk ≡ take n q =
        ap (take n) (front_chunk-contents c d.ring v).0 ∙ take-take n (length chunk) q l in
      rw (first, (consume-contents c n d.ring v).1)
        (append_assoc d.written (take n q) (drop n q) ∙ ap (◌++◌ d.written) (take-append-drop n q))

  answered-Keeps :
      (a : Answer ℕ) (d : Drain K)
      → IsRing c d.ring
      → ((n : ℕ) → a ≡ done n → n ≤ length (front_chunk c d.ring))
      → Keeps d (outcome (answered sys c (front_chunk c d.ring) a d))
  unfolding answered
  answered-Keeps (done zero) d v l = (v, refl)
  answered-Keeps (done (suc n)) d v l =
      ((consume-contents c (suc n) d.ring v).0, taken-total (suc n) d v (l (suc n) refl))
  answered-Keeps (failed e) d v l = elim (Bool-cases (is_interrupted e)) [
    | inl h ↦ rw (h, answered) (v, refl)
    | inr h ↦ rw (h, answered) (v, refl)
  ]

  -- A write that ended the loop.
  abbrev pub Refuses : ℕ → Drain K → Type 0
  Refuses fd e =
      (k : K) × ((sys.write k fd (front_chunk c e.ring)).1 ≡ e.kernel)
      × (is_refusal (sys.write k fd (front_chunk c e.ring)).0 ≡ true)

  -- Nothing is left to write, or the system took none of it.
  abbrev pub Rests : ℕ → Drain K → Type 0
  Rests fd e = (is_empty e.ring ≡ true) ⊎ Refuses fd e

  -- The start of a flush.
  abbrev pub undrained : OutRing → K → Drain K
  undrained ring k = record { ring = ring; kernel = k; written = [] }

  -- What a flush from a ring ends with: the loop has ended by itself, the ring is valid, what was
  -- written and what is left are what the ring held, and it rests.
  abbrev pub IsFlushed : ℕ → OutRing → K → Drain K → Type 0
  IsFlushed fd ring k e =
      (drain_loop sys c (drain_fuel sys c (undrained ring k)) fd (undrained ring k) ≡ some e)
      × IsRing c e.ring
      × (e.written ++ contents c e.ring ≡ contents c ring)
      × Rests fd e

  module _ (laws : IsKernel sys) where
    drain_round-Keeps :
        (fd : ℕ) (d : Drain K) → IsRing c d.ring → Keeps d (outcome (drain_round sys c fd d))
    unfolding drain_round
    drain_round-Keeps fd d v = elim (Bool-cases (is_empty d.ring)) [
      | inl h ↦ rw (h, drain_round) (v, refl)
      | inr h ↦
          let chunk = front_chunk c d.ring in
          rw (h, drain_round)
            (answered-Keeps (sys.write d.kernel fd chunk).0
              (record d { kernel = (sys.write d.kernel fd chunk).1 }) v
              (laws.taken d.kernel fd chunk))
    ]

    drain_loop-Keeps :
        (fuel fd : ℕ) (d e : Drain K)
        → IsRing c d.ring
        → drain_loop sys c fuel fd d ≡ some e
        → Keeps d e
    unfolding drain_loop
    drain_loop-Keeps zero fd d e v h = cc
    drain_loop-Keeps (suc fuel) fd d e v h = elim (Round-cases (drain_round sys c fd d)) [
      | inl (x, r) ↦
          let k : Keeps d x = subst (λ y. Keeps d (outcome y)) r (drain_round-Keeps fd d v) in
          let (w, s) = drain_loop-Keeps fuel fd x e k.0 (rw (r, drain_loop) at h) in (w, s ∙ k.1)
      | inr (x, r) ↦
          let k : Keeps d x = subst (λ y. Keeps d (outcome y)) r (drain_round-Keeps fd d v) in
          let same : some x ≡ some e = rw (r, drain_loop) at h in
          subst (Keeps d) {x = x} {y = e} (grind (arith, same)) k
    ]

    answered-shrinks :
        (a : Answer ℕ) (d x : Drain K) (bound : ℕ)
        → is_empty d.ring ≡ false
        → sys.interrupts d.kernel ≤ bound
        → (a ≡ failed eintr → sys.interrupts d.kernel < bound)
        → answered sys c (front_chunk c d.ring) a d ≡ go_on x
        → drain_fuel sys c x ≤ d.ring.len + bound
    unfolding answered is_empty consume
    answered-shrinks (done zero) d x bound n l i h = absurd (grind (arith, h))
    answered-shrinks (done (suc m)) d x bound n l i h =
        subst (λ y. drain_fuel sys c y ≤ d.ring.len + bound) (ap outcome h) (ground (arith, n, l))
    answered-shrinks (failed eintr) d x bound n l i h =
        subst (λ y. drain_fuel sys c y ≤ d.ring.len + bound) (ap outcome h) (omega (arith, i refl))
    answered-shrinks (failed _) d x bound n l i h = absurd (grind (arith, h))

    drain_round-shrinks :
        (fd : ℕ) (d x : Drain K)
        → drain_round sys c fd d ≡ go_on x
        → drain_fuel sys c x < drain_fuel sys c d
    unfolding drain_round
    drain_round-shrinks fd d x h = elim (Bool-cases (is_empty d.ring)) [
      | inl e ↦ absurd (grind (arith, rw (e, drain_round) at h))
      | inr e ↦
          let chunk = front_chunk c d.ring in
          let less =
            answered-shrinks (sys.write d.kernel fd chunk).0
              (record d { kernel = (sys.write d.kernel fd chunk).1 }) x (sys.interrupts d.kernel) e
              (laws.calm d.kernel fd chunk) (laws.interrupted d.kernel fd chunk)
              (rw (e, drain_round) at h) in
          omega (arith, less)
    ]

    drain_loop_total :
        (fuel fd : ℕ) (d : Drain K)
        → drain_fuel sys c d ≤ fuel
        → (e : Drain K) × (drain_loop sys c fuel fd d ≡ some e)
    unfolding drain_loop
    drain_loop_total zero fd d l = absurd (omega arith)
    drain_loop_total (suc fuel) fd d l = elim (Round-cases (drain_round sys c fd d)) [
      | inl (x, r) ↦
          let less = drain_round-shrinks fd d x r in
          let (e, h) = drain_loop_total fuel fd x (omega (arith, less)) in (e, rw (r, drain_loop) h)
      | inr (x, r) ↦ (x, rw (r, drain_loop) refl)
    ]

    answered-Rests :
        (a : Answer ℕ) (d e : Drain K)
        → answered sys c (front_chunk c d.ring) a d ≡ stop e
        → (d ≡ e) × (is_refusal a ≡ true)
    unfolding answered
    answered-Rests (done zero) d e h = (ap outcome h, refl)
    answered-Rests (done (suc n)) d e h = absurd (grind (arith, h))
    answered-Rests (failed x) d e h = elim (Bool-cases (is_interrupted x)) [
      | inl i ↦ absurd (grind (arith, rw (i, answered) at h))
      | inr i ↦ (ap outcome (rw (i, answered) at h), simp i refl)
    ]

    drain_round-Rests : (fd : ℕ) (d e : Drain K) → drain_round sys c fd d ≡ stop e → Rests fd e
    unfolding drain_round
    drain_round-Rests fd d e h = elim (Bool-cases (is_empty d.ring)) [
      | inl i ↦ inl (subst (λ x. is_empty x.ring ≡ true) (ap outcome (rw (i, drain_round) at h)) i)
      | inr i ↦
          let w = sys.write d.kernel fd (front_chunk c d.ring) in
          let d1 : Drain K = record d { kernel = w.1 } in
          let (same, denied) = answered-Rests w.0 d1 e (rw (i, drain_round) at h) in
          inr (subst (Refuses fd) same (d.kernel, refl, denied))
    ]

    drain_loop-Rests :
        (fuel fd : ℕ) (d e : Drain K) → drain_loop sys c fuel fd d ≡ some e → Rests fd e
    unfolding drain_loop
    drain_loop-Rests zero fd d e h = absurd (grind (arith, h))
    drain_loop-Rests (suc fuel) fd d e h = elim (Round-cases (drain_round sys c fd d)) [
      | inl (x, r) ↦ drain_loop-Rests fuel fd x e (rw (r, drain_loop) at h)
      | inr (x, r) ↦
          let same : some x ≡ some e = rw (r, drain_loop) at h in
          subst (Rests fd) {x = x} {y = e} (grind (arith, same)) (drain_round-Rests fd d x r)
    ]

    -- Where each interrupted write uses up a signal, the loop of `flush` ends by itself on a
    -- valid ring: what it wrote and what the ring still holds are what the ring held, in order,
    -- and either nothing is left or the last write took nothing.
    pub drain_total :
        (fd : ℕ) (ring : OutRing) (k : K)
        → IsRing c ring
        → IsFlushed fd ring k (drain sys c fd ring k)
    unfolding drain
    drain_total fd ring k v =
        let d = undrained ring k in
        let (e, h) = drain_loop_total (drain_fuel sys c d) fd d (omega arith) in
        let (w, s) = drain_loop-Keeps (drain_fuel sys c d) fd d e v h in
        rw (h, drain) (refl, w, s, drain_loop-Rests (drain_fuel sys c d) fd d e h)

    -- The ring and the bytes, after a flush.
    pub drain-Keeps :
        (fd : ℕ) (ring : OutRing) (k : K)
        → IsRing c ring
        → IsRing c (drain sys c fd ring k).ring
          × ((drain sys c fd ring k).written ++ contents c (drain sys c fd ring k).ring
              ≡ contents c ring)
    drain-Keeps fd ring k v = let (h, w, s, r) = drain_total fd ring k v in (w, s)

    -- Where a write of at least one byte always takes some of it or is interrupted, and a signal
    -- is used up by that, `flush` writes out the whole of a valid ring.
    pub drain_empties :
        (fd : ℕ) (ring : OutRing) (k : K)
        → IsRing c ring
        → ((k : K) (bytes : Bytes) → 0 < length bytes → is_refusal (sys.write k fd bytes).0 ≡ false)
        → (is_empty (drain sys c fd ring k).ring ≡ true)
          × ((drain sys c fd ring k).written ≡ contents c ring)
    drain_empties fd ring k v willing =
        let (h, w, s, r) = drain_total fd ring k v in
        let e = drain sys c fd ring k in
        let empty : is_empty e.ring ≡ true = elim (Bool-cases (is_empty e.ring)) [
          | inl i ↦ i
          | inr i ↦ elim r [
            | inl j ↦ j
            | inr (x, moved, denied) ↦
                let yes =
                  willing x (front_chunk c e.ring) ((front_chunk-contents c e.ring w).1 i) in
                absurd (grind (arith, denied, yes))
          ]
        ] in
        (empty, written_all e.written (contents c e.ring) _ (emptied c e.ring empty) s)
