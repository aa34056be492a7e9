-- ===== src/Core/StaticVector.antt =====
-- include/minimosq/core/static_vector.hpp, fixed_string.hpp and fixed_buffer.hpp. A vector is the list
-- of its live elements; its capacity is an argument. An owned string or buffer is the list of its bytes.
pub mod Slots
pub mod Shift
pub mod Contents
use minimosq_mqtt.Prelude.{
  ℕ, zero, suc, ◌+◌, ◌-◌, ◌≤◌, ◌<◌, ◌≡◌, refl, ap, Option, none, some, List, [], ◌∷◌, ◌++◌, arith,
  ltb, leb, ◌==◌, if◌then◌else◌, Bytes, length, take, drop, length-append, set, get_elem?,
}

module _ {ℓ} {A : Type ℓ} where
  -- `push_back`: `none` is `return false`.
  unfoldable pub push_back : ℕ → List A → A → Option (List A)
  push_back capacity xs v = if length xs == capacity then none else some (xs ++ v ∷ [])

  -- The shift of the tail, one to the left from index i on.
  unfoldable pub remove_ordered : ℕ → List A → List A
  remove_ordered i [] = []
  remove_ordered zero (x ∷ xs) = xs
  remove_ordered (suc i) (x ∷ xs) = x ∷ remove_ordered i xs

  unfoldable pub pop_back : List A → List A
  pop_back [] = []
  pop_back (x ∷ []) = []
  pop_back (x ∷ y ∷ xs) = x ∷ pop_back (y ∷ xs)

  -- The last element moves into the gap.
  unfoldable pub remove_unordered : ℕ → List A → List A
  unfolding pop_back
  remove_unordered i xs =
      if leb (length xs) i
      then xs
      else pop_back (
          if ltb (i + 1) (length xs)
          then elim (get_elem? xs (length xs - 1)) [ none ↦ xs | some v ↦ set xs i v ]
          else xs)

  pub length-push_back :
      (capacity : ℕ) (xs ys : List A) (v : A)
      → length xs ≤ capacity
      → push_back capacity xs v ≡ some ys
      → (length ys ≤ capacity) × (length ys ≡ length xs + 1)
  unfolding push_back
  length-push_back capacity xs ys v h e = ground (arith, length-append xs (v ∷ []))

  pub length-remove_ordered :
      (i : ℕ) (xs : List A) → i < length xs → length (remove_ordered i xs) + 1 ≡ length xs
  unfolding remove_ordered
  length-remove_ordered i [] h = absurd (omega arith)
  length-remove_ordered zero (x ∷ xs) h = omega arith
  length-remove_ordered (suc i) (x ∷ xs) h = omega (arith, length-remove_ordered i xs)

  pub length-remove_ordered-le : (i : ℕ) (xs : List A) → length (remove_ordered i xs) ≤ length xs
  unfolding remove_ordered
  length-remove_ordered-le i [] = omega arith
  length-remove_ordered-le zero (x ∷ xs) = omega arith
  length-remove_ordered-le (suc i) (x ∷ xs) = omega (arith, length-remove_ordered-le i xs)

  -- Removal keeps the order of the others: what stands before the gap, then what stands behind it.
  pub remove_ordered_order :
      (i : ℕ) (xs : List A) → remove_ordered i xs ≡ take i xs ++ drop (suc i) xs
  unfolding remove_ordered
  remove_ordered_order zero [] = refl
  remove_ordered_order (suc i) [] = refl
  remove_ordered_order zero (x ∷ xs) = refl
  remove_ordered_order (suc i) (x ∷ xs) = ap (◌∷◌ x) (remove_ordered_order i xs)

-- `FixedString::assign` and `FixedBuffer::assign`: `none` is `return false`, with nothing changed.
unfoldable pub assign : ℕ → Bytes → Option Bytes
assign capacity s = if ltb capacity (length s) then none else some s

-- What the object holds after an `assign` whose answer is not looked at.
unfoldable pub assigned : ℕ → Bytes → Bytes → Bytes
unfolding assign
assigned capacity old s = elim (assign capacity s) [ none ↦ old | some t ↦ t ]

-- `clear` of an owned string or buffer.
abbrev cleared : Bytes → Bytes
cleared s = []
