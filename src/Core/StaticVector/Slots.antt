-- ===== src/Core/StaticVector/Slots.antt =====
-- include/minimosq/core/static_vector.hpp: the vector as the code keeps it, an array of slots and a size.
-- What a slot holds past the size is not read. The default value of the element type is an argument.
use minimosq_mqtt.Prelude.{
  ℕ, zero, suc, ◌+◌, ◌-◌, ◌≤◌, ◌≡◌, Bool, true, false, Option, none, some, List, arith, ltb, leb,
  ◌==◌, if◌then◌else◌, length, take, set, get_elem?, length-take,
}

pub record Storage {ℓ} (A : Type ℓ) : Type ℓ where
  pub slots : List A
  pub size : ℕ

module _ {ℓ} {A : Type ℓ} where
  unfoldable pub is_full : ℕ → Storage A → Bool
  is_full capacity v = v.size == capacity

  unfoldable pub push_back : ℕ → Storage A → A → Bool × Storage A
  push_back capacity v x =
      if v.size == capacity
      then (false, v)
      else (true, record { slots = set v.slots v.size x; size = v.size + 1 })

  -- The index of the slot that is returned, or `none` for the null pointer.
  unfoldable pub emplace_back : ℕ → A → Storage A → Option ℕ × Storage A
  emplace_back capacity default v =
      if v.size == capacity
      then (none, v)
      else (some v.size, record { slots = set v.slots v.size default; size = v.size + 1 })

  unfoldable pub pop_back : Storage A → Storage A
  pop_back v = if v.size == 0 then v else record v { size = v.size - 1 }

  -- `*ptr(i) = *ptr(j)`
  unfoldable pub assign_slot : ℕ → ℕ → List A → List A
  assign_slot i j slots = elim (get_elem? slots j) [ none ↦ slots | some x ↦ set slots i x ]

  -- So many rounds of the loop that closes the gap, from one index on.
  unfoldable pub shift_left : ℕ → ℕ → List A → List A
  shift_left zero j slots = slots
  shift_left (suc n) j slots = shift_left n (suc j) (assign_slot j (suc j) slots)

  unfoldable pub remove_ordered : ℕ → Storage A → Storage A
  remove_ordered i v =
      if leb v.size i
      then v
      else pop_back (record v { slots = shift_left (v.size - 1 - i) i v.slots })

  unfoldable pub remove_unordered : ℕ → Storage A → Storage A
  remove_unordered i v =
      if leb v.size i
      then v
      else pop_back (
          if ltb (i + 1) v.size then record v { slots = assign_slot i (v.size - 1) v.slots } else v)

  -- `while (size_ > 0)`, for at most so many rounds.
  unfoldable pub clear_loop : ℕ → Storage A → Storage A
  clear_loop zero v = v
  clear_loop (suc n) v = let rest = clear_loop n (pop_back v) in if ltb 0 v.size then rest else v

  -- A round takes one from the size.
  unfoldable pub clear : Storage A → Storage A
  clear v = clear_loop v.size v

  -- The elements that are live, and what holds between two operations.
  unfoldable pub contents : Storage A → List A
  contents v = take v.size v.slots

  pub record IsVector (capacity : ℕ) (v : Storage A) : Type ℓ where
    pub sized : length v.slots ≡ capacity
    pub bounded : v.size ≤ capacity

  pub length-contents : (c : ℕ) (v : Storage A) → IsVector c v → length (contents v) ≡ v.size
  unfolding contents
  length-contents c v h = omega (arith, h.sized, h.bounded, length-take v.size v.slots)
