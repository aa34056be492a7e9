-- ===== src/Core/StaticVector/Shift.antt =====
-- include/minimosq/core/static_vector.hpp: the array under the loop of `remove_ordered` and under one write.
use minimosq_mqtt.Core.StaticVector
use minimosq_mqtt.Core.StaticVector.Slots.{assign_slot, shift_left}
use minimosq_mqtt.Prelude.{
  ℕ, zero, suc, ◌+◌, ◌≤◌, ◌<◌, ◌≡◌, refl, ap, ◌∙◌, inl, inr, some, List, [], ◌∷◌, ◌++◌, arith,
  length, take, set, get_elem?, length-set, Option-cases,
}

module _ {ℓ} {A : Type ℓ} where
  pub take-set_end :
      (n : ℕ) (xs : List A) (x : A)
      → n < length xs
      → take (suc n) (set xs n x) ≡ take n xs ++ x ∷ []
  take-set_end n [] x h = absurd (omega arith)
  take-set_end zero (y ∷ xs) x h = refl
  take-set_end (suc n) (y ∷ xs) x h = ap (◌∷◌ y) (take-set_end n xs x (omega arith))

  pub take-set : (n i : ℕ) (xs : List A) (x : A) → take n (set xs i x) ≡ set (take n xs) i x
  take-set zero i xs x = refl
  take-set (suc n) i [] x = refl
  take-set (suc n) zero (y ∷ xs) x = refl
  take-set (suc n) (suc i) (y ∷ xs) x = ap (◌∷◌ y) (take-set n i xs x)

  pub get_elem?-take : (n i : ℕ) (xs : List A) → i < n → get_elem? (take n xs) i ≡ get_elem? xs i
  get_elem?-take zero i xs h = absurd (omega arith)
  get_elem?-take (suc n) i [] h = refl
  get_elem?-take (suc n) zero (y ∷ xs) h = refl
  get_elem?-take (suc n) (suc i) (y ∷ xs) h = get_elem?-take n i xs (omega arith)

  pub pop_back-take :
      (n : ℕ) (xs : List A) → n < length xs → StaticVector.pop_back (take (suc n) xs) ≡ take n xs
  unfolding StaticVector.pop_back
  pop_back-take n [] h = absurd (omega arith)
  pop_back-take zero (x ∷ xs) h = refl
  pop_back-take (suc n) (x ∷ []) h = absurd (omega arith)
  pop_back-take (suc n) (x ∷ y ∷ xs) h = ap (◌∷◌ x) (pop_back-take n (y ∷ xs) (omega arith))

  pub assign_slot-some :
      (i j : ℕ) (xs : List A) (x : A) → get_elem? xs j ≡ some x → assign_slot i j xs ≡ set xs i x
  unfolding assign_slot
  assign_slot-some i j xs x e = rw (e, assign_slot) refl

  pub length-assign_slot : (i j : ℕ) (xs : List A) → length (assign_slot i j xs) ≡ length xs
  unfolding assign_slot
  length-assign_slot i j xs = elim (Option-cases (get_elem? xs j)) [
    | inl e ↦ rw (e, assign_slot) refl
    | inr (x, e) ↦ rw (e, assign_slot) (length-set xs i x)
  ]

  pub length-shift_left : (n j : ℕ) (xs : List A) → length (shift_left n j xs) ≡ length xs
  unfolding shift_left
  length-shift_left zero j xs = refl
  length-shift_left (suc n) j xs =
      length-shift_left n (suc j) (assign_slot j (suc j) xs) ∙ length-assign_slot j (suc j) xs

  assign_slot-cons :
      (i j : ℕ) (x : A) (xs : List A)
      → assign_slot (suc i) (suc j) (x ∷ xs) ≡ x ∷ assign_slot i j xs
  unfolding assign_slot
  assign_slot-cons i j x xs = elim (Option-cases (get_elem? xs j)) [
    | inl e ↦ rw (e, assign_slot) refl
    | inr (y, e) ↦ rw (e, assign_slot) refl
  ]

  -- The loop does not reach behind the index that it starts at.
  shift_left-cons :
      (n j : ℕ) (x : A) (xs : List A) → shift_left n (suc j) (x ∷ xs) ≡ x ∷ shift_left n j xs
  unfolding shift_left
  shift_left-cons zero j x xs = refl
  shift_left-cons (suc n) j x xs =
      ap (shift_left n (suc (suc j))) (assign_slot-cons j (suc j) x xs)
      ∙ shift_left-cons n (suc j) x (assign_slot j (suc j) xs)

  -- From the first slot on, the tail moves one to the left.
  take-shift_left :
      (n : ℕ) (x : A) (xs : List A) → n ≤ length xs → take n (shift_left n 0 (x ∷ xs)) ≡ take n xs
  unfolding shift_left assign_slot
  take-shift_left zero x xs h = refl
  take-shift_left (suc n) x [] h = absurd (omega arith)
  take-shift_left (suc n) x (y ∷ xs) h =
      ap (take (suc n)) (shift_left-cons n 0 y (y ∷ xs))
      ∙ ap (◌∷◌ y) (take-shift_left n y xs (omega arith))

  -- `m` is the index of the last element.
  pub shift_left-remove :
      (i n m : ℕ) (xs : List A)
      → m ≡ i + n
      → m < length xs
      → take m (shift_left n i xs) ≡ StaticVector.remove_ordered i (take (suc m) xs)
  unfolding StaticVector.remove_ordered
  shift_left-remove i n m [] e h = absurd (omega arith)
  shift_left-remove zero n m (x ∷ xs) e h =
      let same : m ≡ n = omega arith in rw same (take-shift_left n x xs (omega arith))
  shift_left-remove (suc i) n zero (x ∷ xs) e h = absurd (omega arith)
  shift_left-remove (suc i) n (suc m) (x ∷ xs) e h =
      ap (take (suc m)) (shift_left-cons n i x xs)
      ∙ ap (◌∷◌ x) (shift_left-remove i n m xs (omega arith) (omega arith))
