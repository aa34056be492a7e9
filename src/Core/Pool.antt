-- ===== src/Core/Pool.antt =====
-- include/minimosq/core/pool.hpp: the slot-stable object pool. A pointer into the pool is its slot's
-- index; `none` in a slot is `!used_[i]`.
pub mod Invariant
pub mod Find
use minimosq_mqtt.Prelude.{
  ℕ, suc, ◌+◌, ◌-◌, Bool, Option, none, some, List, [], ◌∷◌, if◌then◌else◌, set, get_elem?,
  replicate,
}

pub record Pool {ℓ} (A : Type ℓ) : Type ℓ where
  pub slots : List (Option A)
  pub count : ℕ

module _ {ℓ} {A : Type ℓ} where
  unfoldable pub empty_pool : ℕ → Pool A
  empty_pool capacity = record { slots = replicate capacity none; count = 0 }

  -- The loop of `alloc`: the first free slot.
  unfoldable pub first_free : List (Option A) → Option ℕ
  first_free [] = none
  first_free (none ∷ s) = some 0
  first_free (some a ∷ s) = elim (first_free s) [ none ↦ none | some i ↦ some (suc i) ]

  -- `alloc`, with the value-initialised object; `none` is a null pointer.
  unfoldable pub alloc : A → Pool A → Option (ℕ × Pool A)
  unfolding first_free
  alloc fresh p = elim (first_free p.slots) [
    | none ↦ none
    | some i ↦ some (i, record { slots = set p.slots i (some fresh); count = p.count + 1 })
  ]

  -- `at`: null if the slot is free or out of range.
  unfoldable pub at : ℕ → Pool A → Option A
  at i p = elim (get_elem? p.slots i) [ none ↦ none | some o ↦ o ]

  -- `release`: ignored unless the slot is live.
  unfoldable pub release : ℕ → Pool A → Pool A
  unfolding at
  release i p = elim (at i p) [
    | none ↦ p
    | some a ↦ record { slots = set p.slots i none; count = p.count - 1 }
  ]

  -- A write through a pointer to a live object.
  unfoldable pub update : ℕ → A → Pool A → Pool A
  update i a p = record p { slots = set p.slots i (some a) }

  -- The loop of `find`: the slot of the first live object that satisfies the predicate.
  unfoldable pub find_slot : (A → Bool) → List (Option A) → Option ℕ
  find_slot pred [] = none
  find_slot pred (none ∷ s) = elim (find_slot pred s) [ none ↦ none | some i ↦ some (suc i) ]
  find_slot pred (some a ∷ s) =
      let later = elim (find_slot pred s) as (λ _. Option ℕ) [
        | none ↦ none
        | some i ↦ some (suc i)
      ] in
      if pred a then some 0 else later

  unfoldable pub find : (A → Bool) → Pool A → Option ℕ
  unfolding find_slot
  find pred p = find_slot pred p.slots

  -- The live objects in slot order, as `for_each` visits them.
  unfoldable pub live : List (Option A) → List A
  live [] = []
  live (none ∷ s) = live s
  live (some a ∷ s) = a ∷ live s
