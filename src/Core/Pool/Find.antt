-- ===== src/Core/Pool/Find.antt =====
-- include/minimosq/core/pool.hpp: what `find` finds.
use minimosq_mqtt.Prelude.{
  ℕ, zero, suc, ◌≡◌, refl, subst, inl, inr, Bool, true, false, Option, none, some, List, [], ◌∷◌,
  arith, Bool-cases, Option-cases, get_elem?,
}
use minimosq_mqtt.Core.Pool.{first_free, find_slot}

module _ {ℓ} {A : Type ℓ} where
  pub find_slot-some :
      (pred : A → Bool) (s : List (Option A)) (i : ℕ)
      → find_slot pred s ≡ some i
      → (a : A) × (get_elem? s i ≡ some (some a)) × (pred a ≡ true)
  unfolding find_slot
  find_slot-some pred [] i e = cc
  find_slot-some pred (none ∷ s) i e = elim (Option-cases (find_slot pred s)) [
    | inl d ↦ absurd (grind (arith, e, d))
    | inr (j, d) ↦
        (let (a, at_j, good) = find_slot-some pred s j d in
          (
            a,
            subst (λ k. get_elem? (none ∷ s) k ≡ some (some a)) {x = suc j} {y = i}
                (grind (arith, e, d)) at_j,
            good,
          ))
  ]
  find_slot-some pred (some x ∷ s) i e = elim (Bool-cases (pred x)) [
    | inl d ↦ (
      x,
      subst (λ k. get_elem? (some x ∷ s) k ≡ some (some x)) {x = 0} {y = i} (grind (arith, e, d))
          refl,
      d,
    )
    | inr d ↦ elim (Option-cases (find_slot pred s)) [
      | inl d' ↦ absurd (grind (arith, e, d, d'))
      | inr (j, d') ↦
          (let (a, at_j, good) = find_slot-some pred s j d' in
            (
              a,
              subst (λ k. get_elem? (some x ∷ s) k ≡ some (some a)) {x = suc j} {y = i}
                  (grind (arith, e, d, d')) at_j,
              good,
            ))
    ]
  ]

  pub find_slot-none :
      (pred : A → Bool) (s : List (Option A))
      → find_slot pred s ≡ none
      → (i : ℕ) (a : A) → get_elem? s i ≡ some (some a)
      → pred a ≡ false
  unfolding find_slot
  find_slot-none pred [] e i a h = cc
  find_slot-none pred (none ∷ s) e zero a h = absurd (grind (arith, h))
  find_slot-none pred (none ∷ s) e (suc i) a h = find_slot-none pred s (grind (arith, e)) i a h
  find_slot-none pred (some x ∷ s) e zero a h = grind (arith, e, h)
  find_slot-none pred (some x ∷ s) e (suc i) a h = find_slot-none pred s (grind (arith, e)) i a h

  pub first_free-none :
      (s : List (Option A)) (i : ℕ) → first_free s ≡ some i → get_elem? s i ≡ some none
  unfolding first_free
  first_free-none [] i e = cc
  first_free-none (none ∷ s) i e = grind (arith, e)
  first_free-none (some x ∷ s) i e = elim (Option-cases (first_free s)) [
    | inl d ↦ absurd (grind (arith, e, d))
    | inr (j, d) ↦
        subst (λ k. get_elem? (some x ∷ s) k ≡ some none) {x = suc j} {y = i} (grind (arith, e, d))
          (first_free-none s j d)
  ]
