-- ===== src/Core/Pool/Invariant.antt =====
-- The pool's count is the number of its live objects, and every operation keeps it so.
use minimosq_mqtt.Prelude.{
  ℕ, zero, suc, ◌+◌, ◌-◌, ◌≤◌, ◌<◌, ◌≡◌, refl, sym, ap, ◌∙◌, inl, inr, Option, none, some, List, [],
  ◌∷◌, arith, Option-cases, length, set, get_elem?, replicate, length-set, length-replicate,
}
use minimosq_mqtt.Core.Pool.{Pool, empty_pool, first_free, alloc, at, release, live}

module _ {ℓ} {A : Type ℓ} where
  pub record IsValid (capacity : ℕ) (p : Pool A) : Type ℓ where
    pub sized : length p.slots ≡ capacity
    pub counted : p.count ≡ length (live p.slots)

  length-live : (s : List (Option A)) → length (live s) ≤ length s
  unfolding live
  length-live [] = omega arith
  length-live (none ∷ s) = omega (arith, length-live s)
  length-live (some a ∷ s) = omega (arith, length-live s)

  live-empty : (n : ℕ) → live {A = A} (replicate n none) ≡ []
  unfolding live
  live-empty zero = refl
  live-empty (suc n) = live-empty n

  first_free-full : (s : List (Option A)) → first_free s ≡ none → length (live s) ≡ length s
  unfolding first_free live
  first_free-full [] e = refl
  first_free-full (none ∷ s) e = cc
  first_free-full (some a ∷ s) e = ground (arith, first_free-full s)

  live-fill :
      (s : List (Option A)) (i : ℕ) (a : A)
      → first_free s ≡ some i
      → (length (live (set s i (some a))) ≡ length (live s) + 1) × (get_elem? s i ≡ some none)
  unfolding first_free live
  live-fill [] i a e = cc
  live-fill (none ∷ s) zero a e = (omega arith, refl)
  live-fill (none ∷ s) (suc i) a e = cc
  live-fill (some b ∷ s) zero a e = ground arith
  live-fill (some b ∷ s) (suc i) a e = ground (arith, live-fill s i a)

  live-clear :
      (s : List (Option A)) (i : ℕ) (a : A)
      → get_elem? s i ≡ some (some a)
      → length (live (set s i none)) + 1 ≡ length (live s)
  unfolding live
  live-clear [] i a e = cc
  live-clear (none ∷ s) zero a e = ground arith
  live-clear (none ∷ s) (suc i) a e = live-clear s i a e
  live-clear (some b ∷ s) zero a e = omega arith
  live-clear (some b ∷ s) (suc i) a e = omega (arith, live-clear s i a e)

  in_range : (s : List (Option A)) (i : ℕ) (o : Option A) → get_elem? s i ≡ some o → i < length s
  in_range [] i o e = cc
  in_range (x ∷ s) zero o e = omega arith
  in_range (x ∷ s) (suc i) o e = omega (arith, in_range s i o e)

  get-set :
      (s : List (Option A)) (i : ℕ) (o : Option A) → i < length s → get_elem? (set s i o) i ≡ some o
  get-set [] i o h = absurd (omega arith)
  get-set (x ∷ s) zero o h = refl
  get-set (x ∷ s) (suc i) o h = get-set s i o (omega arith)

  pub at-some : (i : ℕ) (p : Pool A) (a : A) → at i p ≡ some a → get_elem? p.slots i ≡ some (some a)
  unfolding at
  at-some i p a e = ground arith

  at-slot : (i : ℕ) (p : Pool A) (o : Option A) → get_elem? p.slots i ≡ some o → at i p ≡ o
  unfolding at
  at-slot i p o e = rw (e, at) refl

  pub empty_pool-IsValid : (capacity : ℕ) → IsValid capacity (empty_pool {A = A} capacity)
  unfolding empty_pool
  empty_pool-IsValid capacity = record {
    sized = length-replicate capacity none;
    counted = sym (ap length (live-empty capacity));
  }

  -- What `alloc` does on both branches: it gives up only on a full pool; else the new object stands
  -- in a slot that was free.
  abbrev pub Allocates : ℕ → A → Pool A → Option (ℕ × Pool A) → Type ℓ
  Allocates capacity fresh p none = Unit × (p.count ≡ capacity)
  Allocates capacity fresh p (some (i, q)) =
      IsValid capacity q
      × (i < capacity)
      × (at i p ≡ none)
      × (at i q ≡ some fresh)
      × (q.count ≡ p.count + 1)

  -- `alloc` on a valid pool gives up only when the pool is full; else it gives a slot in range
  -- that was free, holds the new object now, and the pool stays valid with one object more.
  pub alloc-Allocates :
      (capacity : ℕ) (fresh : A) (p : Pool A)
      → IsValid capacity p
      → Allocates capacity fresh p (alloc fresh p)
  unfolding alloc at
  alloc-Allocates capacity fresh p v = elim (Option-cases (first_free p.slots)) [
    | inl e ↦ rw (e, alloc) (tt, omega (arith, v.sized, v.counted, first_free-full p.slots e))
    | inr (i, e) ↦
        let (grown, free) = live-fill p.slots i fresh e in
        rw (e, alloc)
          (
            record {
              sized = length-set p.slots i (some fresh) ∙ v.sized;
              counted = omega (arith, grown, v.counted);
            },
            omega (arith, in_range p.slots i none free, v.sized),
            at-slot i p none free,
            at-slot i (record { slots = set p.slots i (some fresh); count = p.count + 1 })
                (some fresh) (get-set p.slots i (some fresh) (in_range p.slots i none free)),
            refl,
          )
  ]

  -- `release` keeps a valid pool valid, leaves the slot free, and changes nothing when the slot
  -- was free or out of range, whatever the slot.
  pub release-IsValid :
      (capacity i : ℕ) (p : Pool A)
      → IsValid capacity p
      → IsValid capacity (release i p)
        × (at i (release i p) ≡ none)
        × (at i p ≡ none → release i p ≡ p)
  unfolding release
  release-IsValid capacity i p v = elim (Option-cases (at i p)) [
    | inl e ↦ rw (e, release) (v, e, λ _. refl)
    | inr (a, e) ↦
        let live_here = at-some i p a e in
        let shrunk = live-clear p.slots i a live_here in
        rw (e, release)
          (
            record {
              sized = length-set p.slots i none ∙ v.sized;
              counted = omega (arith, shrunk, v.counted);
            },
            at-slot i (record { slots = set p.slots i none; count = p.count - 1 }) none
                (get-set p.slots i none (in_range p.slots i (some a) live_here)),
            λ n. cc,
          )
  ]
