-- ===== src/Transports/StreamServer/Accept.antt =====
-- include/minimosq/transports/posix/stream_server.hpp: what an attempt of `accept_new` keeps.
use minimosq_mqtt.Prelude.{
  ℕ, suc, ◌<◌, ◌≡◌, refl, ap, subst, inl, inr, false, ◌||◌, Option, none, some, List, [], ◌∷◌,
  arith, ◌==◌, Bool-cases, Option-cases, length, set, get_elem?, get_elem?-lt, get_elem?-set_self,
}
use minimosq_mqtt.Transports.Ring.{clear}
use minimosq_mqtt.Transports.Ring.Queue.{clear-contents}
use minimosq_mqtt.Transports.Kernel.{
  Kernel, Answer-cases, set_nonblocking, is_interrupted, is_again, is_aborted,
}
use minimosq_mqtt.Transports.StreamServer.{
  Slot, Act, accepted_fd, closed_fd, taken, StreamServer, act,
}
use minimosq_mqtt.Transports.Count.{one_if}
use minimosq_mqtt.Transports.StreamServer.Ledger.{
  Flows, Balanced, IsSound, IsFlowing, IsAbout, queued_bytes, wrote_bytes,
}
use minimosq_mqtt.Transports.StreamServer.Streams.{
  put-Flows, put-Balanced, note-Flows, note-Balanced, kept-IsSound,
}
use minimosq_mqtt.Transports.StreamServer.Pass.{
  free_slot, set_nodelay, refuse_fd, take_slot, place, accept_one, reject_slot,
}

free_slot_inv :
    (slots : List Slot) (ci : ℕ) (t : Slot)
    → free_slot slots ≡ some (ci, t)
    → (get_elem? slots ci ≡ some t) × (t.fd ≡ none)
unfolding free_slot
free_slot_inv [] ci t h = absurd (grind (arith, h))
free_slot_inv (u ∷ slots) ci t h = elim (Option-cases u.fd) [
  | inl e ↦ let same : some (0, u) ≡ some (ci, t) = rw (e, free_slot) at h in grind (arith, same, e)
  | inr (fd, e) ↦ elim (Option-cases (free_slot slots)) [
    | inl d ↦ absurd (grind (arith, rw (e, d, free_slot) at h))
    | inr ((i, v), d) ↦
        let same : some (suc i, v) ≡ some (ci, t) = rw (e, d, free_slot) at h in
        grind (arith, same, free_slot_inv slots i v d)
  ]
]

module _ {K : Type 0} (sys : Kernel K) (c : ℕ) where
  -- One descriptor in hand.
  abbrev in_hand : ℕ → ℕ → ℕ
  in_hand fd x = one_if (fd == x)

  abbrev IsHolding : ℕ → StreamServer K → Type 0
  IsHolding fd s = Flows c s × Balanced (in_hand fd) s

  accepted-IsHolding :
      (fd : ℕ) (s : StreamServer K) → IsSound c s → IsHolding fd (act (accepted_fd fd) s)
  unfolding queued_bytes wrote_bytes
  accepted-IsHolding fd s (f, b) = (
    note-Flows c (accepted_fd fd) s _ f (λ i acts. (refl, refl)) refl refl,
    note-Balanced c (λ x. 0) (in_hand fd) (accepted_fd fd) s _ b (λ x. omega arith) refl refl,
  )

  refuse_fd-IsSound :
      (fd : ℕ) (s : StreamServer K) → IsHolding fd s → IsSound c (refuse_fd sys fd s)
  unfolding queued_bytes wrote_bytes
  refuse_fd-IsSound fd s (f, b) = (
    note-Flows c (closed_fd fd) s _ f (λ i acts. (refl, refl)) refl refl,
    note-Balanced c (in_hand fd) (λ x. 0) (closed_fd fd) s _ b (λ x. omega arith) refl refl,
  )

  IsAbout-taken : (ci : ℕ) → IsAbout ci (taken ci)
  unfolding queued_bytes wrote_bytes
  IsAbout-taken ci i acts n = ground (arith, n)

  fresh-IsFlowing :
      (ci fd : ℕ) (t : Slot) (acts : List Act)
      → IsFlowing c acts ci t
      → IsFlowing c
          (taken ci ∷ acts)
          ci
          (record { fd = some fd; ring = clear t.ring; dirty = false })
  unfolding queued_bytes wrote_bytes
  fresh-IsFlowing ci fd t acts h =
      let (v, none_left) = clear-contents c t.ring h.ring in
      record {
        ring = v;
        open_one = λ x e. ground (arith, none_left);
        free_one = λ e. absurd (grind (arith, e));
      }

  nodelay-slots :
      (fd : ℕ) (s : StreamServer K)
      → ((set_nodelay sys fd s).slots ≡ s.slots) × ((set_nodelay sys fd s).acts ≡ s.acts)
  nodelay-slots fd s = elim (Bool-cases s.tcp_nodelay) [
    | inl d ↦ simp d (refl, refl)
    | inr d ↦ simp d (refl, refl)
  ]

  take_slot-IsSound :
      (fd ci : ℕ) (t : Slot) (s : StreamServer K)
      → get_elem? s.slots ci ≡ some t
      → t.fd ≡ none
      → IsHolding fd s
      → IsSound c (take_slot sys fd ci t s)
  take_slot-IsSound fd ci t s e o (f, b) =
      let u : Slot = record { fd = some fd; ring = clear t.ring; dirty = false } in
      let (se, ae) = nodelay-slots fd s in
      (
        put-Flows c ci (taken ci) t u s _ f e (IsAbout-taken ci) (fresh-IsFlowing ci fd t s.acts)
            (ap (λ l. set l ci u) se) (ap (λ l. taken ci ∷ l) ae),
        put-Balanced c (in_hand fd) (λ x. 0) ci (taken ci) t u s _ b e (λ x. rw o (omega arith))
            (ap (λ l. set l ci u) se) (ap (λ l. taken ci ∷ l) ae),
      )

  -- A slot that a connection has just taken.
  abbrev pub IsTaken : ℕ → ℕ → StreamServer K → Type 0
  IsTaken ci fd s =
      (t : Slot) × (get_elem? s.slots ci ≡ some t)
      × (t.fd ≡ some fd)
      × (t.ring.len ≡ 0)
      × (t.dirty ≡ false)

  abbrev pub IsPlaced : Option (ℕ × ℕ) × StreamServer K → Type 0
  IsPlaced r = IsSound c r.1 × ((ci fd : ℕ) → r.0 ≡ some (ci, fd) → IsTaken ci fd r.1)

  assigned-IsPlaced :
      (fd ci : ℕ) (t : Slot) (s : StreamServer K)
      → get_elem? s.slots ci ≡ some t
      → t.fd ≡ none
      → IsHolding fd s
      → IsPlaced (some (ci, fd), take_slot sys fd ci t s)
  unfolding clear
  assigned-IsPlaced fd ci t s e o h = (
    take_slot-IsSound fd ci t s e o h,
    λ i x same.
        let u : Slot = record { fd = some fd; ring = clear t.ring; dirty = false } in
        let l : ci < length (set_nodelay sys fd s).slots =
          rw ((nodelay-slots fd s).0) (get_elem?-lt s.slots ci t e) in
        let at = get_elem?-set_self (set_nodelay sys fd s).slots ci u l in
        (
          u,
          subst (λ j. get_elem? (take_slot sys fd ci t s).slots j ≡ some u) {x = ci} {y = i}
              (grind (arith, same)) at,
          grind (arith, same),
          refl,
          refl,
        ),
  )

  place-IsPlaced : (fd : ℕ) (s : StreamServer K) → IsHolding fd s → IsPlaced (place sys fd s)
  unfolding place
  place-IsPlaced fd s h = elim (Option-cases (free_slot s.slots)) [
    | inl e ↦ rw (e, place) (refuse_fd-IsSound fd s h, λ ci x d. absurd (grind (arith, d)))
    | inr ((ci, t), e) ↦
        let (at, o) = free_slot_inv s.slots ci t e in
        let s1 : StreamServer K = record s { kernel = (set_nonblocking sys fd s.kernel).1 } in
        let h1 : IsHolding fd s1 = kept-IsSound c (in_hand fd) s s1 refl refl h in
        elim (Bool-cases (set_nonblocking sys fd s.kernel).0) [
          | inl d ↦ rw (e, d, place) (assigned-IsPlaced fd ci t s1 at o h1)
          | inr d ↦
              rw (e, d, place) (refuse_fd-IsSound fd s1 h1, λ ci x d. absurd (grind (arith, d)))
        ]
  ]

  pub accept_one-IsPlaced :
      (now listener : ℕ) (s : StreamServer K)
      → IsSound c s
      → IsPlaced (accept_one sys now listener s).0
  unfolding accept_one
  accept_one-IsPlaced now listener s h =
      let s1 : StreamServer K = record s { kernel = (sys.accept s.kernel listener).1 } in
      let h1 : IsSound c s1 = kept-IsSound c (λ x. 0) s s1 refl refl h in
      let nothing : (t : StreamServer K)
          → t.slots ≡ s.slots
          → t.acts ≡ s.acts
          → IsPlaced (none, t) =
        λ t se ae. (kept-IsSound c (λ x. 0) s t se ae h, λ ci x d. absurd (grind (arith, d))) in
      elim (Answer-cases (sys.accept s.kernel listener).0) [
        | inl (fd, d) ↦ rw (d, accept_one) (place-IsPlaced fd _ (accepted-IsHolding fd s1 h1))
        | inr (e, d) ↦ elim (Bool-cases (is_interrupted e || is_aborted e)) [
          | inl x ↦ rw (d, x, accept_one) (nothing _ refl refl)
          | inr x ↦ elim (Bool-cases (is_again e)) [
            | inl y ↦ rw (d, x, y, accept_one) (nothing _ refl refl)
            | inr y ↦ rw (d, x, y, accept_one) (nothing _ refl refl)
          ]
        ]
      ]

  pub reject_slot-IsSound :
      (ci fd : ℕ) (s : StreamServer K)
      → IsTaken ci fd s
      → IsSound c s
      → IsSound c (reject_slot sys ci fd s)
  unfolding reject_slot queued_bytes wrote_bytes
  reject_slot-IsSound ci fd s (t, e, o, empty, clean) (f, b) =
      let u : Slot = record t { fd = none } in
      rw (e, reject_slot)
        (
          put-Flows c ci (closed_fd fd) t u s _ f e (λ i acts n. (refl, refl))
              (λ h. record {
                ring = h.ring;
                open_one = λ x d. absurd (grind (arith, d));
                free_one = λ d. (empty, clean);
              })
              refl refl,
          put-Balanced c (λ x. 0) (λ x. 0) ci (closed_fd fd) t u s _ b e (λ x. rw o (omega arith))
              refl refl,
        )
