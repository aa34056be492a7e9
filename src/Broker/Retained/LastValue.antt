-- ===== src/Broker/Retained/LastValue.antt =====
-- A retained topic is a last-known-value slot.
use minimosq_mqtt.Prelude.{
  ℕ, zero, suc, ◌+◌, ◌≤◌, ◌<◌, ◌≡◌, refl, sym, ap, subst, ◌∙◌, ◌≢◌, inl, inr, false, ◌||◌, Option,
  none, some, List, [], ◌∷◌, arith, ltb, Bool-cases, Option-cases, Bytes, length, set,
}
use minimosq_mqtt.Core.Span.{view_eq_refl}
use minimosq_mqtt.Core.StaticVector.{assign, assigned}
use minimosq_mqtt.Core.Pool.{Pool, first_free, alloc, release, update, find}
use minimosq_mqtt.Protocol.Constants.{QoS}
use minimosq_mqtt.Broker.Retained.{
  RetainStatus, stored, dropped, stale_purged, Entry, Limits, new_entry, find_entry, named_entry,
  store_value, set_new, set_existing, set_retained, remove_retained,
}
use minimosq_mqtt.Broker.Retained.Slots.{
  value, Distinct, holds_at, Keeps, find_slot-none, found-holds_at, free-holds_at, value-cleared,
  value-set-none, holds_at_other, clear-Keeps, write-Keeps, found-at, value-set_self, value-none,
}

-- How each answer of `set` describes the store after it.
abbrev pub Outcome : Bytes → Bytes → QoS → Pool Entry → RetainStatus → Pool Entry → Type 0
Outcome topic payload qos p stored q =
    value topic q.slots ≡ some (record { topic = topic; payload = payload; qos = qos })
Outcome topic payload qos p dropped q = (value topic p.slots ≡ none) × (q ≡ p)
Outcome topic payload qos p stale_purged q =
    (value topic p.slots ≢ none) × (value topic q.slots ≡ none)

abbrev pub LastValue : Bytes → Bytes → QoS → Pool Entry → RetainStatus × Pool Entry → Type 0
LastValue topic payload qos p (st, q) =
    Keeps topic p.slots q.slots × Outcome topic payload qos p st q

set-set : (s : List (Option Entry)) (i : ℕ) (a b : Option Entry) → set (set s i a) i b ≡ set s i b
set-set [] i a b = refl
set-set (o ∷ s) zero a b = refl
set-set (o ∷ s) (suc i) a b = ap (◌∷◌ o) (set-set s i a b)

-- Writing the topic's entry to its slot, or to a free one when it has none.
stored-LastValue :
    (topic payload : Bytes) (qos : QoS) (p : Pool Entry) (i n : ℕ)
    → Distinct p.slots
    → i < length p.slots
    → value topic (set p.slots i none) ≡ none
    → ((other : Bytes) → other ≢ topic → holds_at other p.slots i ≡ false)
    → LastValue topic payload qos p (
      stored,
      record {
        slots = set p.slots i (some (record { topic = topic; payload = payload; qos = qos }));
        count = n;
      },
    )
stored-LastValue topic payload qos p i n d small clear away = (
  write-Keeps topic p.slots i (record { topic = topic; payload = payload; qos = qos }) d refl clear
      away,
  value-set_self topic p.slots i (record { topic = topic; payload = payload; qos = qos }) small
      clear (view_eq_refl topic),
)

dropped-LastValue :
    (topic payload : Bytes) (qos : QoS) (p : Pool Entry)
    → Distinct p.slots
    → find_entry topic p ≡ none
    → LastValue topic payload qos p (dropped, p)
unfolding find_entry find
dropped-LastValue topic payload qos p d f =
    ((d, λ other n. refl), (find_slot-none topic p.slots f, refl))

purged-LastValue :
    (topic payload : Bytes) (qos : QoS) (i : ℕ) (p : Pool Entry)
    → Distinct p.slots
    → find_entry topic p ≡ some i
    → LastValue topic payload qos p (stale_purged, release i p)
unfolding find_entry find release
purged-LastValue topic payload qos i p d f =
    let (e, here, same) = found-at topic i p f in
    let (h, small) = found-holds_at topic p.slots i f in
    rw (here, release)
      (
        clear-Keeps topic p.slots i d h,
        (λ n. cc (value-none topic p.slots i n, h), value-set-none topic p.slots i d h),
      )

assigned_fits : (capacity : ℕ) (old s : Bytes) → length s ≤ capacity → assigned capacity old s ≡ s
unfolding assigned assign
assigned_fits capacity old s h = ground arith

store_value_fits :
    (l : Limits) (payload : Bytes) (qos : QoS) (i : ℕ) (e : Entry) (p : Pool Entry)
    → length payload ≤ l.max_payload_len
    → store_value l payload qos i e p ≡ (
      stored,
      record {
        slots = set p.slots i (some (record { topic = e.topic; payload = payload; qos = qos }));
        count = p.count;
      },
    )
unfolding store_value update
store_value_fits l payload qos i e p h =
    rw (assigned_fits l.max_payload_len e.payload payload h) refl

set_new_fits :
    (l : Limits) (topic payload : Bytes) (qos : QoS) (i : ℕ) (p : Pool Entry)
    → first_free p.slots ≡ some i
    → length topic ≤ l.max_topic_len
    → length payload ≤ l.max_payload_len
    → set_new l topic payload qos p ≡ (
      stored,
      record {
        slots = set p.slots i (some (record { topic = topic; payload = payload; qos = qos }));
        count = p.count + 1;
      },
    )
unfolding set_new named_entry alloc
set_new_fits l topic payload qos i p e ht hp =
    let named : Entry = record new_entry { topic = assigned l.max_topic_len [] topic } in
    let q : Pool Entry = record { slots = set p.slots i (some new_entry); count = p.count + 1 } in
    rw (e, set_new)
      (store_value_fits l payload qos i named q hp
        ∙ rw
            (
              assigned_fits l.max_topic_len [] topic ht,
              set-set p.slots i (some new_entry)
                  (some (record { topic = topic; payload = payload; qos = qos })),
            )
            refl)

new-LastValue :
    (l : Limits) (topic payload : Bytes) (qos : QoS) (p : Pool Entry)
    → Distinct p.slots
    → find_entry topic p ≡ none
    → length topic ≤ l.max_topic_len
    → length payload ≤ l.max_payload_len
    → LastValue topic payload qos p (set_new l topic payload qos p)
unfolding find_entry find set_new named_entry alloc
new-LastValue l topic payload qos p d f ht hp = elim (Option-cases (first_free p.slots)) [
  | inl e ↦ rw (e, set_new) (dropped-LastValue topic payload qos p d f)
  | inr (i, e) ↦
      let none_yet = find_slot-none topic p.slots f in
      subst (LastValue topic payload qos p) (sym (set_new_fits l topic payload qos i p e ht hp)) (
        stored-LastValue topic payload qos p i (p.count + 1) d (free-holds_at topic p.slots i e).1
          (value-cleared topic p.slots i none_yet) (λ other n. (free-holds_at other p.slots i e).0))
]

existing-LastValue :
    (l : Limits) (topic payload : Bytes) (qos : QoS) (i : ℕ) (p : Pool Entry)
    → Distinct p.slots
    → find_entry topic p ≡ some i
    → length payload ≤ l.max_payload_len
    → LastValue topic payload qos p (set_existing l payload qos i p)
unfolding find_entry find set_existing
existing-LastValue l topic payload qos i p d f hp =
    let (e, here, same) = found-at topic i p f in
    let (h, small) = found-holds_at topic p.slots i f in
    let whole : set_existing l payload qos i p ≡ (
      stored,
      record {
        slots = set p.slots i (some (record { topic = topic; payload = payload; qos = qos }));
        count = p.count;
      },
    ) =
      rw (here, set_existing) (store_value_fits l payload qos i e p hp ∙ rw same refl) in
    subst (LastValue topic payload qos p) (sym whole) (
      stored-LastValue topic payload qos p i p.count d small (value-set-none topic p.slots i d h)
        (λ other n. holds_at_other topic other p.slots i h n))

-- `set` on a store without two entries for a topic keeps it so and leaves the value of every
-- other topic; `stored` leaves the new message as the value, `dropped` the store as it was, with
-- no value for the topic, and `stale_purged` removes the value that was there.
pub set_retained-LastValue :
    (l : Limits) (topic payload : Bytes) (qos : QoS) (p : Pool Entry)
    → Distinct p.slots
    → LastValue topic payload qos p (set_retained l topic payload qos p)
unfolding set_retained
set_retained-LastValue l topic payload qos p d = elim (Option-cases (find_entry topic p)) [
  | inl f ↦
      elim (Bool-cases
        (ltb l.max_topic_len (length topic) || ltb l.max_payload_len (length payload))) [
          | inl big ↦ rw (big, f) (dropped-LastValue topic payload qos p d f)
          | inr small ↦
              rw (small, f) (new-LastValue l topic payload qos p d f (ground arith) (ground arith))
        ]
  | inr (i, f) ↦
      elim (Bool-cases
        (ltb l.max_topic_len (length topic) || ltb l.max_payload_len (length payload))) [
          | inl big ↦ rw (big, f) (purged-LastValue topic payload qos i p d f)
          | inr small ↦
              rw (small, f) (existing-LastValue l topic payload qos i p d f (ground arith))
        ]
]

-- `remove` on a store without two entries for a topic keeps it so, leaves the topic without a
-- value and every other topic with its own.
pub remove_retained-Keeps :
    (topic : Bytes) (p : Pool Entry)
    → Distinct p.slots
    → Keeps topic p.slots (remove_retained topic p).slots
      × (value topic (remove_retained topic p).slots ≡ none)
unfolding remove_retained
remove_retained-Keeps topic p d = elim (Option-cases (find_entry topic p)) [
  | inl f ↦
      rw (f, remove_retained)
        (
          (dropped-LastValue topic [] QoS.at_most_once p d f).0,
          (dropped-LastValue topic [] QoS.at_most_once p d f).1.0,
        )
  | inr (i, f) ↦
      rw (f, remove_retained)
        (
          (purged-LastValue topic [] QoS.at_most_once i p d f).0,
          (purged-LastValue topic [] QoS.at_most_once i p d f).1.1,
        )
]
