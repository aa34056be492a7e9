-- ===== src/Broker/Retained/Slots.antt =====
-- The slots of the store, seen through the value of a topic.
use minimosq_mqtt.Prelude.{
  ℕ, zero, suc, ◌<◌, ◌≡◌, refl, sym, subst, ◌∙◌, ◌≢◌, inl, inr, Bool, true, false, Option, none,
  some, List, [], ◌∷◌, arith, if◌then◌else◌, Bool-cases, Bytes, length, set, get_elem?,
}
use minimosq_mqtt.Core.Span.{view_eq, view_eq→eq, view_eq_refl}
use minimosq_mqtt.Core.Pool.{Pool, first_free, at, find_slot, find}
use minimosq_mqtt.Broker.Retained.{Entry, find_entry}

-- The retained message of a topic.
unfoldable pub value : Bytes → List (Option Entry) → Option Entry
value t [] = none
value t (none ∷ s) = value t s
value t (some e ∷ s) = let rest = value t s in if view_eq e.topic t then some e else rest

-- No topic has two entries.
abbrev pub Distinct : List (Option Entry) → Type 0
Distinct [] = Unit
Distinct (none ∷ s) = Distinct s
Distinct (some e ∷ s) = (value e.topic s ≡ none) × Distinct s

pub find_slot-none :
    (t : Bytes) (s : List (Option Entry))
    → find_slot (λ e. view_eq e.topic t) s ≡ none
    → value t s ≡ none
unfolding find_slot value
find_slot-none t [] f = refl
find_slot-none t (none ∷ s) f = ground (arith, find_slot-none t s)
find_slot-none t (some e ∷ s) f = ground (arith, find_slot-none t s)

abbrev pub holds : Bytes → Option Entry → Bool
holds t none = false
holds t (some e) = view_eq e.topic t

abbrev pub holds_at : Bytes → List (Option Entry) → ℕ → Bool
holds_at t [] i = false
holds_at t (o ∷ s) zero = holds t o
holds_at t (o ∷ s) (suc i) = holds_at t s i

-- What `find` gives is the index of an entry for the topic.
find_slot-some :
    (t : Bytes) (s : List (Option Entry)) (i : ℕ)
    → find_slot (λ e. view_eq e.topic t) s ≡ some i
    → (e : Entry) × (get_elem? s i ≡ some (some e)) × (view_eq e.topic t ≡ true)
unfolding find_slot
find_slot-some t [] i f = cc
find_slot-some t (none ∷ s) zero f = absurd (ground arith)
find_slot-some t (none ∷ s) (suc i) f = find_slot-some t s i (ground arith)
find_slot-some t (some e ∷ s) zero f = (e, refl, ground arith)
find_slot-some t (some e ∷ s) (suc i) f = find_slot-some t s i (ground arith)

pub found-holds_at :
    (t : Bytes) (s : List (Option Entry)) (i : ℕ)
    → find_slot (λ e. view_eq e.topic t) s ≡ some i
    → (holds_at t s i ≡ true) × (i < length s)
unfolding find_slot
found-holds_at t [] i f = cc
found-holds_at t (none ∷ s) zero f = absurd (ground arith)
found-holds_at t (none ∷ s) (suc i) f = ground (arith, found-holds_at t s i)
found-holds_at t (some e ∷ s) zero f = ground arith
found-holds_at t (some e ∷ s) (suc i) f = ground (arith, found-holds_at t s i)

pub free-holds_at :
    (t : Bytes) (s : List (Option Entry)) (i : ℕ)
    → first_free s ≡ some i
    → (holds_at t s i ≡ false) × (i < length s)
unfolding first_free
free-holds_at t [] i f = cc
free-holds_at t (none ∷ s) zero f = (refl, omega arith)
free-holds_at t (none ∷ s) (suc i) f = cc
free-holds_at t (some e ∷ s) zero f = absurd (ground arith)
free-holds_at t (some e ∷ s) (suc i) f = ground (arith, free-holds_at t s i)

-- A write to a slot that is not the topic's leaves the topic's value.
value-set_other :
    (t : Bytes) (s : List (Option Entry)) (i : ℕ) (o : Option Entry)
    → holds_at t s i ≡ false
    → holds t o ≡ false
    → value t (set s i o) ≡ value t s
unfolding value
value-set_other t [] i o h n = refl
value-set_other t (none ∷ s) zero none h n = refl
value-set_other t (none ∷ s) zero (some e) h n = ground arith
value-set_other t (some c ∷ s) zero none h n = ground arith
value-set_other t (some c ∷ s) zero (some e) h n = ground arith
value-set_other t (none ∷ s) (suc i) o h n = value-set_other t s i o h n
value-set_other t (some c ∷ s) (suc i) o h n = ground (arith, value-set_other t s i o)

pub value-set_self :
    (t : Bytes) (s : List (Option Entry)) (i : ℕ) (e : Entry)
    → i < length s
    → value t (set s i none) ≡ none
    → view_eq e.topic t ≡ true
    → value t (set s i (some e)) ≡ some e
unfolding value
value-set_self t [] i e h n m = absurd (omega arith)
value-set_self t (o ∷ s) zero e h n m = ground arith
value-set_self t (none ∷ s) (suc i) e h n m = value-set_self t s i e (omega arith) n m
value-set_self t (some c ∷ s) (suc i) e h n m = ground (arith, value-set_self t s i e)

pub value-none :
    (t : Bytes) (s : List (Option Entry)) (i : ℕ) → value t s ≡ none → holds_at t s i ≡ false
unfolding value
value-none t [] i n = refl
value-none t (none ∷ s) zero n = refl
value-none t (none ∷ s) (suc i) n = value-none t s i n
value-none t (some c ∷ s) zero n = ground arith
value-none t (some c ∷ s) (suc i) n = ground (arith, value-none t s i)

pub value-cleared :
    (t : Bytes) (s : List (Option Entry)) (i : ℕ) → value t s ≡ none → value t (set s i none) ≡ none
value-cleared t s i n = value-set_other t s i none (value-none t s i n) refl ∙ n

same_topic :
    (t : Bytes) (e : Entry) (s : List (Option Entry))
    → view_eq e.topic t ≡ true
    → value e.topic s ≡ none
    → value t s ≡ none
same_topic t e s h n = subst (λ u. value u s ≡ none) (view_eq→eq e.topic t h) n

-- Distinct topics: clearing a topic's slot leaves it without a value.
pub value-set-none :
    (t : Bytes) (s : List (Option Entry)) (i : ℕ)
    → Distinct s
    → holds_at t s i ≡ true
    → value t (set s i none) ≡ none
unfolding value
value-set-none t [] i d h = cc
value-set-none t (none ∷ s) zero d h = cc
value-set-none t (some c ∷ s) zero d h = same_topic t c s h d.0
value-set-none t (none ∷ s) (suc i) d h = value-set-none t s i d h
value-set-none t (some c ∷ s) (suc i) d h =
    ground (arith, value-set-none t s i, same_topic t c s, value-none t s i)

Distinct-clear : (s : List (Option Entry)) (i : ℕ) → Distinct s → Distinct (set s i none)
Distinct-clear [] i d = d
Distinct-clear (none ∷ s) zero d = d
Distinct-clear (some c ∷ s) zero d = d.1
Distinct-clear (none ∷ s) (suc i) d = Distinct-clear s i d
Distinct-clear (some c ∷ s) (suc i) d = (value-cleared c.topic s i d.0, Distinct-clear s i d.1)

view_eq_sym : (a b : Bytes) → view_eq a b ≡ false → view_eq b a ≡ false
view_eq_sym a b h = ground (arith, view_eq→eq b a, view_eq_refl a)

Distinct-set :
    (s : List (Option Entry)) (i : ℕ) (e : Entry)
    → Distinct s
    → value e.topic (set s i none) ≡ none
    → Distinct (set s i (some e))
unfolding value
Distinct-set [] i e d n = d
Distinct-set (none ∷ s) zero e d n = (n, d)
Distinct-set (some c ∷ s) zero e d n = (n, d.1)
Distinct-set (none ∷ s) (suc i) e d n = Distinct-set s i e d n
Distinct-set (some c ∷ s) (suc i) e d n =
    let apart : view_eq c.topic e.topic ≡ false = ground arith in
    (
      value-set_other c.topic s i (some e) (value-none c.topic s i d.0)
            (view_eq_sym c.topic e.topic apart)
          ∙ d.0,
      Distinct-set s i e d.1 (ground arith),
    )

other_topic :
    (t other : Bytes) (o : Option Entry) → holds t o ≡ true → other ≢ t → holds other o ≡ false
other_topic t other none h n = refl
other_topic t other (some e) h n = elim (Bool-cases (view_eq e.topic other)) [
  | inl m ↦ absurd (n (sym (view_eq→eq e.topic other m) ∙ view_eq→eq e.topic t h))
  | inr m ↦ m
]

pub holds_at_other :
    (t other : Bytes) (s : List (Option Entry)) (i : ℕ)
    → holds_at t s i ≡ true
    → other ≢ t
    → holds_at other s i ≡ false
holds_at_other t other [] i h n = refl
holds_at_other t other (o ∷ s) zero h n = other_topic t other o h n
holds_at_other t other (o ∷ s) (suc i) h n = holds_at_other t other s i h n

-- What an operation on one topic leaves alone: the topics stay distinct, the other values stay.
abbrev pub Keeps : Bytes → List (Option Entry) → List (Option Entry) → Type 0
Keeps t s r = Distinct r × ((other : Bytes) → other ≢ t → value other r ≡ value other s)

pub clear-Keeps :
    (t : Bytes) (s : List (Option Entry)) (i : ℕ)
    → Distinct s
    → holds_at t s i ≡ true
    → Keeps t s (set s i none)
clear-Keeps t s i d h = (
  Distinct-clear s i d,
  λ other n. value-set_other other s i none (holds_at_other t other s i h n) refl,
)

pub write-Keeps :
    (t : Bytes) (s : List (Option Entry)) (i : ℕ) (e : Entry)
    → Distinct s
    → e.topic ≡ t
    → value t (set s i none) ≡ none
    → ((other : Bytes) → other ≢ t → holds_at other s i ≡ false)
    → Keeps t s (set s i (some e))
write-Keeps t s i e d same n away = (
  Distinct-set s i e d (subst (λ u. value u (set s i none) ≡ none) (sym same) n),
  λ other m. value-set_other other s i (some e) (away other m) (
      other_topic t other (some e)
        (subst (λ u. view_eq e.topic u ≡ true) same (view_eq_refl e.topic)) m),
)

pub found-at :
    (topic : Bytes) (i : ℕ) (p : Pool Entry)
    → find_entry topic p ≡ some i
    → (e : Entry) × (at i p ≡ some e) × (e.topic ≡ topic)
unfolding find_entry find at
found-at topic i p f =
    let (e, here, same) = find_slot-some topic p.slots i f in
    (e, rw (here, at) refl, view_eq→eq e.topic topic same)
