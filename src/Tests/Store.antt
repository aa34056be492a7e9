-- ===== src/Tests/Store.antt =====
-- A store with one retained message in two slots, and a session with identifiers in use.
use minimosq_mqtt.Prelude.{ℕ, ◌≡◌, refl, ◌≢◌, false, none, some, [], ◌∷◌, arith, Bytes}
use minimosq_mqtt.Core.Pool.{Pool}
use minimosq_mqtt.Protocol.Constants.{at_least_once, at_most_once}
use minimosq_mqtt.Broker.Retained.{Entry, Limits, set_retained}
use minimosq_mqtt.Broker.Retained.Slots.{value}
use minimosq_mqtt.Broker.Retained.LastValue.{LastValue, set_retained-LastValue}
use minimosq_mqtt.Broker.Session.{
  Session, OutMsg, awaiting_puback, new_session, alloc_packet_id, has_inbound_qos2,
  remove_inbound_qos2,
}
use minimosq_mqtt.Broker.Session.PacketIds.{
  IsFresh, Distinct, alloc_packet_id-IsFresh, remove_inbound_qos2-Distinct,
}

abbrev limits : Limits
limits = record { max_topic_len = 8; max_payload_len = 4 }

abbrev lamp : Bytes
lamp = b'l' ∷ []

abbrev store : Pool Entry
store = record {
  slots = some (record { topic = lamp; payload = 1 ∷ []; qos = at_most_once }) ∷ none ∷ [];
  count = 1;
}

set_retained-LastValue_example :
    LastValue lamp
      (2 ∷ [])
      at_least_once
      store
      (set_retained limits lamp (2 ∷ []) at_least_once store)
unfolding value
set_retained-LastValue_example =
    set_retained-LastValue limits lamp (2 ∷ []) at_least_once store (refl, tt)

abbrev in_flight : OutMsg
in_flight = record {
  topic = lamp;
  payload = 1 ∷ [];
  packet_id = 1;
  qos = at_least_once;
  state = awaiting_puback;
  retain = false;
  dup = false;
  resend_pubrel = false;
}

abbrev session : Session ℕ
session = record (new_session 0) { pending = in_flight ∷ []; last_packet_id = 0xffff }

alloc_packet_id-IsFresh_example :
    (id : ℕ) × (alloc_packet_id session ≡ some (id, record session { last_packet_id = id }))
    × IsFresh session.pending id
alloc_packet_id-IsFresh_example = alloc_packet_id-IsFresh session (omega arith) (omega arith)

remove_inbound_qos2-Distinct_example :
    Distinct (remove_inbound_qos2 7 (3 ∷ 7 ∷ []))
    × (has_inbound_qos2 7 (remove_inbound_qos2 7 (3 ∷ 7 ∷ [])) ≡ false)
    × ((other : ℕ)
        → other ≢ 7
        → has_inbound_qos2 other (remove_inbound_qos2 7 (3 ∷ 7 ∷ []))
          ≡ has_inbound_qos2 other (3 ∷ 7 ∷ []))
unfolding has_inbound_qos2
remove_inbound_qos2-Distinct_example =
    remove_inbound_qos2-Distinct 7 (3 ∷ 7 ∷ []) (refl, (refl, tt))
