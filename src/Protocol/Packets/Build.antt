-- ===== src/Protocol/Packets/Build.antt =====
-- include/minimosq/protocol/packets.hpp: the builders. A builder writes its body behind
-- `packet_overhead` bytes of the buffer and puts the fixed header directly in front of it; the span
-- it returns is the list of its bytes, empty where the source returns an empty span.
use minimosq_mqtt.Prelude.{
  ℕ, ◌+◌, ◌-◌, ◌*◌, ◌%◌, ◌^◌, bit_or, Bool, not, [], ◌∷◌, ◌++◌, ltb, if◌then◌else◌, Bytes, length,
}
use minimosq_mqtt.Protocol.Constants.{
  PacketType, QoS, ConnackCode, connack, publish, pubrel, pingresp, qos_code, connack_code, type_eq,
  max_remaining_length, make_first_byte, varint_size, publish_qos_shift, publish_retain_bit,
  publish_dup_bit,
}
use minimosq_mqtt.Protocol.Writer
use minimosq_mqtt.Protocol.Writer.{Writer, writer}
use minimosq_mqtt.Protocol.Packets.Parse.{is_qos_0}

abbrev pub packet_overhead : ℕ
packet_overhead = 5

-- The header is written at `packet_overhead - 1 - vs`, so it ends where the body begins.
unfoldable pub frame_packet : ℕ → Bytes → Bytes
frame_packet first_byte body =
    let vs = varint_size (length body) in
    let w = Writer.varint (length body) (Writer.u8 first_byte (writer (1 + vs))) in
    if ltb max_remaining_length (length body) then [] else if not w.ok then [] else w.out ++ body

-- The guards that the builders share: room for the overhead and the least body, a writer that did not
-- fail, then the framing.
unfoldable pub framed : ℕ → ℕ → ℕ → Writer → Bytes
framed least cap first_byte w =
    if ltb cap (packet_overhead + least)
    then []
    else if not w.ok
    then []
    else frame_packet first_byte w.out

unfoldable pub build_connack : ℕ → Bool → ConnackCode → Bytes
build_connack cap session_present code =
    let w0 = writer (cap - packet_overhead) in
    let w1 = Writer.u8 (if session_present then 0x01 else 0x00) w0 in
    let w = Writer.u8 (connack_code code) w1 in framed 2 cap (make_first_byte connack 0) w

abbrev pub publish_flags : QoS → Bool → Bool → ℕ
publish_flags qos retain dup =
    let shifted = qos_code qos * 2 ^ publish_qos_shift % 256 in
    let retained = if retain then bit_or shifted publish_retain_bit else shifted in
    if dup then bit_or retained publish_dup_bit else retained

unfoldable pub build_publish : ℕ → Bytes → Bytes → QoS → Bool → Bool → ℕ → Bytes
build_publish cap topic payload qos retain dup packet_id =
    let w1 = Writer.utf8 topic (writer (cap - packet_overhead)) in
    let w2 = if not (is_qos_0 qos) then Writer.u16 packet_id w1 else w1 in
    let w = Writer.bytes payload w2 in
    framed 0 cap (make_first_byte publish (publish_flags qos retain dup)) w

unfoldable pub build_packet_id_only : ℕ → PacketType → ℕ → Bytes
build_packet_id_only cap type packet_id =
    let w = Writer.u16 packet_id (writer (cap - packet_overhead)) in
    framed 2 cap (make_first_byte type (if type_eq type pubrel then 0x02 else 0x00)) w

unfoldable pub build_pingresp : ℕ → Bytes
build_pingresp cap = if ltb cap 2 then [] else make_first_byte pingresp 0 ∷ 0 ∷ []
