-- ===== src/Broker/Retained.antt =====
-- include/minimosq/broker/retained.hpp: the retained messages, one pool slot each.
pub mod Slots
pub mod LastValue
use minimosq_mqtt.Prelude.{
  ℕ, ◌||◌, Option, none, some, List, [], ◌∷◌, ltb, if◌then◌else◌, Bytes, length,
}
use minimosq_mqtt.Core.Span.{view_eq}
use minimosq_mqtt.Core.StaticVector.{assigned}
use minimosq_mqtt.Core.Pool.{Pool, alloc, at, release, update, find, live}
use minimosq_mqtt.Protocol.Constants.{QoS, at_most_once}
use minimosq_mqtt.Topic.{topic_matches}

pub data RetainStatus : Type 0 where
  stored dropped stale_purged : RetainStatus

pub record Entry : Type 0 where
  pub topic : Bytes
  pub payload : Bytes
  pub qos : QoS

-- What the store takes from Traits; max_retained is the pool's number of slots.
pub record Limits : Type 0 where
  pub max_topic_len : ℕ
  pub max_payload_len : ℕ

abbrev pub new_entry : Entry
new_entry = record { topic = []; payload = []; qos = at_most_once }

unfoldable pub find_entry : Bytes → Pool Entry → Option ℕ
unfolding find view_eq
find_entry topic p = find (λ e. view_eq e.topic topic) p

-- `e->topic.assign(topic)`, done only to an entry that was just allocated.
unfoldable pub named_entry : Limits → Bytes → Pool Entry → Option (ℕ × Entry × Pool Entry)
unfolding alloc assigned
named_entry l topic p = elim (alloc new_entry p) [
  | none ↦ none
  | some (i, q) ↦ some (i, record new_entry { topic = assigned l.max_topic_len [] topic }, q)
]

-- The last three lines of `set`.
unfoldable pub store_value :
    Limits → Bytes → QoS → ℕ → Entry → Pool Entry → RetainStatus × Pool Entry
unfolding assigned update
store_value l payload qos i e p = (
  stored,
  update i (record e { payload = assigned l.max_payload_len e.payload payload; qos = qos }) p,
)

unfoldable pub set_new : Limits → Bytes → Bytes → QoS → Pool Entry → RetainStatus × Pool Entry
unfolding named_entry store_value
set_new l topic payload qos p = elim (named_entry l topic p) [
  | none ↦ (dropped, p)
  | some (i, e, q) ↦ store_value l payload qos i e q
]

-- The entry that `find` gave: the object in its slot.
unfoldable pub set_existing : Limits → Bytes → QoS → ℕ → Pool Entry → RetainStatus × Pool Entry
unfolding store_value at
set_existing l payload qos i p = elim (at i p) [
  | none ↦ (dropped, p)
  | some e ↦ store_value l payload qos i e p
]

unfoldable pub set_retained : Limits → Bytes → Bytes → QoS → Pool Entry → RetainStatus × Pool Entry
unfolding find_entry set_new set_existing release
set_retained l topic payload qos p =
    if ltb l.max_topic_len (length topic) || ltb l.max_payload_len (length payload)
    then elim (find_entry topic p) [ none ↦ (dropped, p) | some i ↦ (stale_purged, release i p) ]
    else elim (find_entry topic p) [
      | none ↦ set_new l topic payload qos p
      | some i ↦ set_existing l payload qos i p
    ]

unfoldable pub remove_retained : Bytes → Pool Entry → Pool Entry
unfolding find_entry release
remove_retained topic p = elim (find_entry topic p) [ none ↦ p | some i ↦ release i p ]

-- The entries that `for_each_match` visits, in slot order.
unfoldable pub matching : Bytes → List Entry → List Entry
unfolding topic_matches
matching filter [] = []
matching filter (e ∷ es) =
    let rest = matching filter es in if topic_matches filter e.topic then e ∷ rest else rest

unfoldable pub for_each_match : Bytes → Pool Entry → List Entry
unfolding matching live
for_each_match filter p = matching filter (live p.slots)
