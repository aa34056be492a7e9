-- ===== src/Protocol/Packets/RoundTrip.antt =====
-- `parse_publish` reads back what `build_publish` writes.
use minimosq_mqtt.Prelude.{
  ℕ, ◌/◌, ◌%◌, ◌^◌, ◌≤◌, ◌<◌, bit_and, ◌≡◌, refl, Bool, true, false, ◌&&◌, ◌∷◌, arith, ltb, ◌==◌,
  if◌then◌else◌, Bytes, length,
}
use minimosq_mqtt.Protocol.Constants.{
  QoS, publish, qos_code, qos_of_code, at_most_once, at_least_once, exactly_once, max_utf8_len,
  make_first_byte, first_byte_fields,
}
use minimosq_mqtt.Protocol.Reader.{utf8_reads, number_reads, rest_reads}
use minimosq_mqtt.Protocol.Packets.Wire.{publish_wire}
use minimosq_mqtt.Protocol.Packets.Parse
use minimosq_mqtt.Protocol.Packets.Parse.{parse_publish, publish_body, is_qos_0, has_bit}
use minimosq_mqtt.Protocol.Packets.Build.{publish_flags}

-- What `parse_publish` reads from such a packet.
publish_body_reads :
    (topic payload : Bytes) (qos : QoS) (dup retain : Bool) (id : ℕ)
    → length topic ≤ max_utf8_len
    → id < 2 ^ 16
    → 0 < id
    → publish_body qos dup retain (publish_wire topic qos id payload)
      ≡ Parse.packet (record {
        topic = topic;
        payload = payload;
        packet_id = if is_qos_0 qos then 0 else id;
        qos = qos;
        retain = retain;
        dup = dup;
      })
unfolding publish_body
publish_body_reads topic payload at_most_once dup retain id ht hid pos =
    rw (utf8_reads topic payload (omega arith), rest_reads payload) refl
publish_body_reads topic payload at_least_once dup retain id ht hid pos =
    let nonzero : (id == 0) ≡ false = ground arith in
    rw
      (
        utf8_reads topic ((id / 256) ∷ (id % 256) ∷ payload) (omega arith),
        number_reads id payload hid,
        nonzero,
        rest_reads payload,
      )
      refl
publish_body_reads topic payload exactly_once dup retain id ht hid pos =
    let nonzero : (id == 0) ≡ false = ground arith in
    rw
      (
        utf8_reads topic ((id / 256) ∷ (id % 256) ∷ payload) (omega arith),
        number_reads id payload hid,
        nonzero,
        rest_reads payload,
      )
      refl

-- The flag nibble of a PUBLISH, read back.
flags_read :
    (qos : QoS) (retain dup : Bool)
    → (publish_flags qos retain dup < 16)
      × (bit_and (publish_flags qos retain dup) 0x06 / 2 ^ 1 ≡ qos_code qos)
      × (has_bit (publish_flags qos retain dup) 0x08 ≡ dup)
      × (has_bit (publish_flags qos retain dup) 0x01 ≡ retain)
flags_read at_most_once true true = (omega arith, refl, refl, refl)
flags_read _ true true = (omega arith, refl, refl, refl)
flags_read at_most_once true false = (omega arith, refl, refl, refl)
flags_read _ true false = (omega arith, refl, refl, refl)
flags_read at_most_once false true = (omega arith, refl, refl, refl)
flags_read _ false true = (omega arith, refl, refl, refl)
flags_read at_most_once false false = (omega arith, refl, refl, refl)
flags_read _ false false = (omega arith, refl, refl, refl)

qos_read : (qos : QoS) → qos_of_code (qos_code qos) ≡ qos
qos_read at_most_once = refl
qos_read _ = refl

-- `parse_publish` reads back the fields of the PUBLISH layout that `build_publish` writes, for a
-- topic of at most 65535 bytes, a non-zero 16-bit identifier and no DUP at QoS 0; at QoS 0 the
-- identifier is zero.
pub parse_publish-publish_wire :
    (topic payload : Bytes) (qos : QoS) (retain dup : Bool) (id : ℕ)
    → length topic ≤ max_utf8_len
    → id < 2 ^ 16
    → 0 < id
    → is_qos_0 qos && dup ≡ false
    → parse_publish
        (make_first_byte publish (publish_flags qos retain dup))
        (publish_wire topic qos id payload)
      ≡ Parse.packet (record {
        topic = topic;
        payload = payload;
        packet_id = if is_qos_0 qos then 0 else id;
        qos = qos;
        retain = retain;
        dup = dup;
      })
unfolding parse_publish
parse_publish-publish_wire topic payload qos retain dup id ht hid pos nodup =
    let (small, q, d, r) = flags_read qos retain dup in
    let nibble = (first_byte_fields publish (publish_flags qos retain dup) small).1 in
    let allowed : ltb 2 (qos_code qos) ≡ false = ground arith in
    rw (nibble, q, d, r, allowed, qos_read qos, nodup)
      (publish_body_reads topic payload qos dup retain id ht hid pos)
