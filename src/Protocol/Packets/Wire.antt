-- ===== src/Protocol/Packets/Wire.antt =====
-- What the builders put on the wire, and that the parsers read it back.
use minimosq_mqtt.Prelude.{
  ℕ, ◌+◌, ◌-◌, ◌/◌, ◌%◌, ◌^◌, ◌≤◌, ◌<◌, ◌≡◌, refl, Bool, true, false, not, [], ◌∷◌, ◌++◌,
  append-nil, arith, ltb, leb, if◌then◌else◌, Bytes, length,
}
use minimosq_mqtt.Protocol.Constants.{
  PacketType, QoS, publish, pubrel, type_eq, at_most_once, at_least_once, exactly_once,
  max_remaining_length, max_utf8_len, make_first_byte, varint_size,
}
use minimosq_mqtt.Protocol.Writer
use minimosq_mqtt.Protocol.Writer.{Writer, writer, remaining_length, varint_bytes}
use minimosq_mqtt.Protocol.Writer.Appends.{
  Appends, Appends-Appends, u8-Appends, u16-Appends, bytes-Appends, utf8-Appends, varint-Appends,
  Inside, Appends-Inside,
}
use minimosq_mqtt.Protocol.Frame.Stream.{packet}
use minimosq_mqtt.Protocol.Packets.Parse.{is_qos_0}
use minimosq_mqtt.Protocol.Packets.Build.{
  packet_overhead, frame_packet, framed, publish_flags, build_publish, build_packet_id_only,
}

length-varint : (v : ℕ) → v ≤ max_remaining_length → length (remaining_length v) ≡ varint_size v
unfolding varint_bytes varint_size
length-varint v h = ground arith

-- A writer that had room wrote what it was given.
Appends-fits :
    (b : Bytes) (w v : Writer)
    → Appends b w v
    → w.ok ≡ true
    → length w.out + length b ≤ w.cap
    → v ≡ record w { out = w.out ++ b }
Appends-fits b w v h ok room = ground arith

Appends-full :
    (b : Bytes) (w v : Writer) → Appends b w v → w.cap < length w.out + length b → v.ok ≡ false
Appends-full b w v h over = ground arith

abbrev wrote : ℕ → Bytes → Writer
wrote cap b = record { out = b; cap = cap; ok = true }

writer_empty : (cap : ℕ) → writer cap ≡ wrote cap []
unfolding writer
writer_empty cap = refl

header :
    (first v cap : ℕ)
    → v ≤ max_remaining_length
    → 1 + varint_size v ≤ cap
    → Writer.varint v (Writer.u8 first (writer cap)) ≡ wrote cap (first ∷ remaining_length v)
header first v cap h room = rw (writer_empty cap) (
    Appends-fits (first ∷ remaining_length v) (wrote cap []) _
      (Appends-Appends (first ∷ []) (remaining_length v) (wrote cap []) _ _
        (u8-Appends first (wrote cap []) (omega arith))
        (varint-Appends v (Writer.u8 first (wrote cap []))
          (Appends-Inside (first ∷ []) (wrote cap []) _
            (u8-Appends first (wrote cap []) (omega arith)))
          h))
      refl (omega (arith, length-varint v h)))

-- `frame_packet` puts the first byte and the Remaining Length in front of a body of at most
-- 268,435,455 bytes.
pub frame_packet-packet :
    (first : ℕ) (body : Bytes)
    → length body ≤ max_remaining_length
    → frame_packet first body ≡ packet first body
unfolding frame_packet
frame_packet-packet first body h =
    let fits : ltb max_remaining_length (length body) ≡ false = ground arith in
    rw (fits, header first (length body) (1 + varint_size (length body)) h (omega arith)) refl

-- The body of a PUBLISH as the standard lays it out [MQTT-3.3].
abbrev pub publish_wire : Bytes → QoS → ℕ → Bytes → Bytes
publish_wire topic qos id payload =
    ((length topic / 256) ∷ (length topic % 256) ∷ topic)
    ++ ((if is_qos_0 qos then [] else (id / 256) ∷ (id % 256) ∷ []) ++ payload)

Appends-nil : (w : Writer) → Inside w → Appends [] w w
Appends-nil w h = ground (arith, append-nil w.out)

id_Appends :
    (qos : QoS) (id : ℕ) (w : Writer)
    → Inside w
    → id < 2 ^ 16
    → Appends
        (if is_qos_0 qos then [] else (id / 256) ∷ (id % 256) ∷ [])
        w
        (if not (is_qos_0 qos) then Writer.u16 id w else w)
id_Appends at_most_once id w h hid = Appends-nil w h
id_Appends at_least_once id w h hid = u16-Appends id w h hid
id_Appends exactly_once id w h hid = u16-Appends id w h hid

-- The writes of a PUBLISH body append that body, or fail where it does not fit.
publish_body_Appends :
    (topic payload : Bytes) (qos : QoS) (id : ℕ) (w : Writer)
    → Inside w
    → length topic ≤ max_utf8_len
    → id < 2 ^ 16
    → Appends (publish_wire topic qos id payload) w (
        Writer.bytes payload
          (if not (is_qos_0 qos) then Writer.u16 id (Writer.utf8 topic w) else Writer.utf8 topic w))
publish_body_Appends topic payload qos id w h ht hid =
    let a1 = utf8-Appends topic w h ht in
    let i1 = Appends-Inside _ w _ a1 in
    let a2 = id_Appends qos id (Writer.utf8 topic w) i1 hid in
    let i2 = Appends-Inside _ _ _ a2 in
    Appends-Appends _ _ w _ _ a1 (Appends-Appends _ payload _ _ _ a2 (bytes-Appends payload _ i2))

-- A builder's packet, or nothing where the buffer cannot hold it.
framed-packet :
    (least cap first : ℕ) (b : Bytes) (w : Writer)
    → Appends b (writer (cap - packet_overhead)) w
    → least ≤ length b
    → length b ≤ max_remaining_length
    → framed least cap first w
      ≡ (if leb (packet_overhead + length b) cap then packet first b else [])
unfolding framed writer
framed-packet least cap first b w h hl small = ground (arith, frame_packet-packet first b small)

-- `build_publish` gives the whole packet in the layout of the standard when the buffer holds its
-- overhead and body, and the empty span otherwise, for a topic of at most 65535 bytes, a 16-bit
-- identifier and a body within the protocol limit.
pub build_publish-packet :
    (cap : ℕ) (topic payload : Bytes) (qos : QoS) (retain dup : Bool) (id : ℕ)
    → length topic ≤ max_utf8_len
    → id < 2 ^ 16
    → length (publish_wire topic qos id payload) ≤ max_remaining_length
    → build_publish cap topic payload qos retain dup id ≡ (
        if leb (packet_overhead + length (publish_wire topic qos id payload)) cap
        then packet
            (make_first_byte publish (publish_flags qos retain dup))
            (publish_wire topic qos id payload)
        else [])
unfolding build_publish writer
build_publish-packet cap topic payload qos retain dup id ht hid small =
    framed-packet 0 cap _ (publish_wire topic qos id payload) _
      (publish_body_Appends topic payload qos id (writer (cap - packet_overhead)) (omega arith) ht
        hid)
      (omega arith) small

-- `build_packet_id_only` gives the packet of two identifier bytes, with the flags that PUBREL
-- has, when the buffer holds seven bytes, and the empty span otherwise, for a 16-bit identifier.
pub build_packet_id_only-packet :
    (cap : ℕ) (type : PacketType) (id : ℕ)
    → id < 2 ^ 16
    → build_packet_id_only cap type id ≡ (
        if leb 7 cap
        then packet
            (make_first_byte type (if type_eq type pubrel then 0x02 else 0x00))
            ((id / 256) ∷ (id % 256) ∷ [])
        else [])
unfolding build_packet_id_only writer
build_packet_id_only-packet cap type id hid =
    framed-packet 2 cap _ ((id / 256) ∷ (id % 256) ∷ []) _
      (u16-Appends id (writer (cap - packet_overhead)) (omega arith) hid) (omega arith)
      (omega arith)
