-- ===== src/Core/StaticVector/Contents.antt =====
-- include/minimosq/core/static_vector.hpp: what the operations on the array do to the list of live elements.
use minimosq_mqtt.Core.StaticVector
use minimosq_mqtt.Core.StaticVector.Slots.{
  Storage, is_full, push_back, emplace_back, pop_back, remove_ordered, remove_unordered, clear_loop,
  clear, contents, IsVector, length-contents,
}
use minimosq_mqtt.Core.StaticVector.Shift.{
  take-set_end, take-set, get_elem?-take, pop_back-take, assign_slot-some, length-assign_slot,
  length-shift_left, shift_left-remove,
}
use minimosq_mqtt.Prelude.{
  ◌↔◌, drop, ℕ, zero, suc, ◌+◌, ◌-◌, ◌≤◌, ◌<◌, ◌≡◌, refl, sym, ap, ◌∙◌, Bool, true, false, inl, inr,
  Option, none, some, List, [], ◌∷◌, ◌++◌, arith, ltb, leb, ◌==◌, length, take, set, get_elem?,
  get_elem?-none, length-set, Option-cases, Bool-cases,
}

module _ {ℓ} {A : Type ℓ} where
  remove_ordered_out : (i : ℕ) (xs : List A) → length xs ≤ i → StaticVector.remove_ordered i xs ≡ xs
  unfolding StaticVector.remove_ordered
  remove_ordered_out i [] h = refl
  remove_ordered_out zero (x ∷ xs) h = absurd (omega arith)
  remove_ordered_out (suc i) (x ∷ xs) h = ap (◌∷◌ x) (remove_ordered_out i xs (omega arith))

  remove_ordered-contents :
      (c i : ℕ) (v : Storage A)
      → IsVector c v
      → contents (remove_ordered i v) ≡ StaticVector.remove_ordered i (contents v)
  unfolding remove_ordered contents pop_back
  remove_ordered-contents c i v h = elim (Bool-cases (leb v.size i)) [
    | inl e ↦ rw e (sym (remove_ordered_out i (contents v) (ground (arith, length-contents c v h))))
    | inr e ↦
        let some_left : (v.size == 0) ≡ false = ground arith in
        let last : suc (v.size - 1) ≡ v.size = ground arith in
        rw (e, some_left)
          (shift_left-remove i (v.size - 1 - i) (v.size - 1) v.slots (ground arith)
              (ground (arith, h.sized, h.bounded))
            ∙ ap (λ n. StaticVector.remove_ordered i (take n v.slots)) last)
  ]

  pop_back-contents :
      (c : ℕ) (v : Storage A)
      → IsVector c v
      → contents (pop_back v) ≡ StaticVector.pop_back (contents v)
  unfolding contents pop_back StaticVector.pop_back
  pop_back-contents c v h = elim (Bool-cases (v.size == 0)) [
    | inl e ↦ let none_left : v.size ≡ 0 = ground arith in rw (e, none_left) refl
    | inr e ↦
        let last : suc (v.size - 1) ≡ v.size = ground arith in
        rw e (
          sym (pop_back-take (v.size - 1) v.slots (ground (arith, h.sized, h.bounded)))
          ∙ ap (λ n. StaticVector.pop_back (take n v.slots)) last)
  ]

  -- The last element.
  last_live :
      (c : ℕ) (v : Storage A)
      → IsVector c v
      → 0 < v.size
      → (x : A) × (get_elem? v.slots (v.size - 1) ≡ some x)
  last_live c v h l = elim (Option-cases (get_elem? v.slots (v.size - 1))) [
    | inl e ↦ absurd (omega (arith, get_elem?-none v.slots (v.size - 1) e, h.sized, h.bounded))
    | inr (x, e) ↦ (x, e)
  ]

  remove_unordered-contents :
      (c i : ℕ) (v : Storage A)
      → IsVector c v
      → contents (remove_unordered i v) ≡ StaticVector.remove_unordered i (contents v)
  unfolding remove_unordered StaticVector.remove_unordered contents
  remove_unordered-contents c i v h = elim (Bool-cases (leb v.size i)) [
    | inl e ↦ rw (length-contents c v h, e) refl
    | inr e ↦ elim (Bool-cases (ltb (i + 1) v.size)) [
      | inl l ↦
          let (x, d) = last_live c v h (ground arith) in
          let moved : Storage A = record v { slots = set v.slots i x } in
          let kept : get_elem? (contents v) (v.size - 1) ≡ some x =
            get_elem?-take v.size (v.size - 1) v.slots (ground arith) ∙ d in
          let IsMoved : IsVector c moved = record {
            sized = length-set v.slots i x ∙ h.sized;
            bounded = h.bounded;
          } in
          rw (length-contents c v h, e, l, assign_slot-some i (v.size - 1) v.slots x d, kept)
            (pop_back-contents c moved IsMoved
              ∙ ap StaticVector.pop_back (take-set v.size i v.slots x))
      | inr l ↦ rw (length-contents c v h, e, l) (pop_back-contents c v h)
    ]
  ]

  pop_back-IsVector : (c : ℕ) (v : Storage A) → IsVector c v → IsVector c (pop_back v)
  unfolding pop_back
  pop_back-IsVector c v h = elim (Bool-cases (v.size == 0)) [
    | inl e ↦ rw e h
    | inr e ↦ rw e (record { sized = h.sized; bounded = omega (arith, h.bounded) })
  ]

  remove_ordered-IsVector :
      (c i : ℕ) (v : Storage A) → IsVector c v → IsVector c (remove_ordered i v)
  unfolding remove_ordered
  remove_ordered-IsVector c i v h = elim (Bool-cases (leb v.size i)) [
    | inl e ↦ rw e h
    | inr e ↦ rw e (
        pop_back-IsVector c _ (record {
          sized = length-shift_left (v.size - 1 - i) i v.slots ∙ h.sized;
          bounded = h.bounded;
        }))
  ]

  remove_unordered-IsVector :
      (c i : ℕ) (v : Storage A) → IsVector c v → IsVector c (remove_unordered i v)
  unfolding remove_unordered
  remove_unordered-IsVector c i v h = elim (Bool-cases (leb v.size i)) [
    | inl e ↦ rw e h
    | inr e ↦ elim (Bool-cases (ltb (i + 1) v.size)) [
      | inl l ↦
          rw (e, l)
            (pop_back-IsVector c _ (record {
              sized = length-assign_slot i (v.size - 1) v.slots ∙ h.sized;
              bounded = h.bounded;
            }))
      | inr l ↦ rw (e, l) (pop_back-IsVector c v h)
    ]
  ]

  -- What is left when the loop of `clear` has ended.
  clear_loop-Empties :
      (c n : ℕ) (v : Storage A)
      → IsVector c v
      → v.size ≤ n
      → IsVector c (clear_loop n v) × ((clear_loop n v).size ≡ 0)
  unfolding clear_loop pop_back
  clear_loop-Empties c zero v h l = (h, omega arith)
  clear_loop-Empties c (suc n) v h l = elim (Bool-cases (ltb 0 v.size)) [
    | inl e ↦
        let some_left : (v.size == 0) ≡ false = ground arith in
        let less : (pop_back v).size ≤ n = rw some_left (ground arith) in
        rw e (clear_loop-Empties c n (pop_back v) (pop_back-IsVector c v h) less)
    | inr e ↦ rw e (h, ground arith)
  ]

  -- The list that a result of `push_back` stands for.
  abbrev pub pushed_list : Bool × Storage A → Option (List A)
  pushed_list (true, v) = some (contents v)
  pushed_list (false, v) = none

  emplace_back-contents :
      (c : ℕ) (d : A) (v : Storage A) → (emplace_back c d v).1 ≡ (push_back c v d).1
  unfolding emplace_back push_back
  emplace_back-contents c d v = elim (Bool-cases (v.size == c)) [
    | inl e ↦ rw e refl
    | inr e ↦ rw e refl
  ]

  push_back-contents :
      (c : ℕ) (v : Storage A) (x : A)
      → IsVector c v
      → (pushed_list (push_back c v x) ≡ StaticVector.push_back c (contents v) x)
        × IsVector c (push_back c v x).1
  unfolding push_back contents StaticVector.push_back
  push_back-contents c v x h = elim (Bool-cases (v.size == c)) [
    | inl e ↦ rw (length-contents c v h, e) (refl, h)
    | inr e ↦
        let next : v.size + 1 ≡ suc v.size = omega arith in
        rw (length-contents c v h, e)
          (
            ap (λ n. some (take n (set v.slots v.size x))) next
                ∙ ap some (take-set_end v.size v.slots x (ground (arith, h.sized, h.bounded))),
            record {
              sized = length-set v.slots v.size x ∙ h.sized;
              bounded = ground (arith, h.bounded);
            },
          )
  ]

  push_back_refuses :
      (c : ℕ) (v : Storage A) (x : A) → (push_back c v x).0 ≡ false → (push_back c v x).1 ≡ v
  unfolding push_back
  push_back_refuses c v x = elim (Bool-cases (v.size == c)) [
    | inl e ↦ rw e (λ r. refl)
    | inr e ↦ rw e (λ r. absurd (ground (arith, r)))
  ]

  -- A vector does what the list of its live elements does, and stays a vector of its capacity; `emplace_back`
  -- does what `push_back` of the default value does.
  pub record IsList (c : ℕ) (d : A) (v : Storage A) : Type ℓ where
    pub pushes : (x : A) → pushed_list (push_back c v x) ≡ StaticVector.push_back c (contents v) x
    pub pushes_valid : (x : A) → IsVector c (push_back c v x).1
    pub refuses : (x : A) → (push_back c v x).0 ≡ false → (push_back c v x).1 ≡ v
    pub emplaces : (emplace_back c d v).1 ≡ (push_back c v d).1
    pub removes :
        (i : ℕ) → contents (remove_ordered i v) ≡ take i (contents v) ++ drop (suc i) (contents v)
    pub removes_valid : (i : ℕ) → IsVector c (remove_ordered i v)
    pub removes_unordered :
        (i : ℕ) → contents (remove_unordered i v) ≡ StaticVector.remove_unordered i (contents v)
    pub removes_unordered_valid : (i : ℕ) → IsVector c (remove_unordered i v)
    pub pops : contents (pop_back v) ≡ StaticVector.pop_back (contents v)
    pub pops_valid : IsVector c (pop_back v)
    pub clears : contents (clear v) ≡ []
    pub clears_valid : IsVector c (clear v)
    pub full : (is_full c v ≡ true) ↔ (length (contents v) ≡ c)

  -- The array with its size does what the list of its live elements does, whatever the slots past the size
  -- hold: `push_back` appends or refuses on a full vector and changes nothing, `emplace_back` appends the
  -- default value, `remove_ordered` takes out one element and keeps the order of the others, for an index in
  -- range or not, `remove_unordered` puts the last one in its place, `pop_back` takes the last, if there is
  -- one, `clear` ends with none, and each leaves a valid vector.
  pub vector-IsList : (c : ℕ) (d : A) (v : Storage A) → IsVector c v → IsList c d v
  unfolding clear contents is_full
  vector-IsList c d v h =
      let emptied = clear_loop-Empties c v.size v h (omega arith) in
      record {
        pushes = λ x. (push_back-contents c v x h).0;
        pushes_valid = λ x. (push_back-contents c v x h).1;
        refuses = λ x. push_back_refuses c v x;
        emplaces = emplace_back-contents c d v;
        removes =
            λ i. remove_ordered-contents c i v h ∙ StaticVector.remove_ordered_order i (contents v);
        removes_valid = λ i. remove_ordered-IsVector c i v h;
        removes_unordered = λ i. remove_unordered-contents c i v h;
        removes_unordered_valid = λ i. remove_unordered-IsVector c i v h;
        pops = pop_back-contents c v h;
        pops_valid = pop_back-IsVector c v h;
        clears = ap (λ n. take n (clear_loop v.size v).slots) emptied.1;
        clears_valid = emptied.0;
        full = (
          λ e. ground (arith, length-contents c v h),
          λ e. ground (arith, length-contents c v h),
        );
      }
