-- ===== src/Protocol/Packets/Parse.antt =====
-- include/minimosq/protocol/packets.hpp: the parsers of CONNECT, PUBLISH and the packets that carry
-- a packet id alone. What a parser fills in is read by its callers only behind `Err::ok`, so an
-- error carries no packet.
use minimosq_mqtt.Prelude.{
  ℕ, ◌/◌, ◌^◌, bit_and, Bool, true, false, not, ◌&&◌, ◌||◌, [], ◌∷◌, ltb, ◌==◌, if◌then◌else◌,
  Bytes,
}
use minimosq_mqtt.Core.Span.{Err, truncated, malformed, view_eq}
use minimosq_mqtt.Protocol.Constants.{
  QoS, at_most_once, qos_of_code, packet_flags, publish_retain_bit, publish_qos_mask,
  publish_qos_shift, publish_dup_bit,
}
use minimosq_mqtt.Protocol.Reader
use minimosq_mqtt.Protocol.Reader.{Reader, reader, at_end}

pub data Parsed {ℓ} (A : Type ℓ) : Type ℓ where
  packet : A → Parsed A
  error : Err → Parsed A

pub record ConnectPacket : Type 0 where
  pub client_id : Bytes
  pub will_topic : Bytes
  pub will_payload : Bytes
  pub username : Bytes
  pub password : Bytes
  pub keepalive_s : ℕ
  pub protocol_level : ℕ
  pub will_qos : QoS
  pub protocol_name_ok : Bool
  pub clean_session : Bool
  pub has_will : Bool
  pub will_retain : Bool
  pub has_username : Bool
  pub has_password : Bool

-- `(flags & bit) != 0`
abbrev pub has_bit : ℕ → ℕ → Bool
has_bit flags bit = not (bit_and flags bit == 0)

-- The bytes of "MQTT"
abbrev pub protocol_name : Bytes
protocol_name = b'M' ∷ b'Q' ∷ b'T' ∷ b'T' ∷ []

-- A field that a flag announces.
abbrev pub optional_field : Bool → (Reader → Bytes × Reader) → Reader → Bytes × Reader
optional_field present field r = if present then field r else ([], r)

-- The payload of a CONNECT, and the checks behind it. The flags are checked already.
unfoldable pub connect_payload : Bool → ℕ → ℕ → ℕ → Reader → Parsed ConnectPacket
connect_payload name_ok level flags keepalive r0 =
    let has_will = has_bit flags 0x04 in
    let has_username = has_bit flags 0x80 in
    let has_password = has_bit flags 0x40 in
    let (client_id, r1) = Reader.utf8 r0 in
    let (will_topic, r2) = optional_field has_will Reader.utf8 r1 in
    let (will_payload, r3) = optional_field has_will Reader.len_prefixed_bytes r2 in
    let (username, r4) = optional_field has_username Reader.utf8 r3 in
    let (password, r5) = optional_field has_password Reader.len_prefixed_bytes r4 in
    if not r5.ok
    then error truncated
    else if not (at_end r5)
    then error malformed
    else packet (record {
      client_id = client_id;
      will_topic = will_topic;
      will_payload = will_payload;
      username = username;
      password = password;
      keepalive_s = keepalive;
      protocol_level = level;
      will_qos = qos_of_code (bit_and flags 0x18 / 2 ^ 3);
      protocol_name_ok = name_ok;
      clean_session = has_bit flags 0x02;
      has_will = has_will;
      will_retain = has_bit flags 0x20;
      has_username = has_username;
      has_password = has_password;
    })

-- The rules on the CONNECT flags: `will_qos_raw` is bits 3 and 4.
unfoldable pub connect_flags_ok : ℕ → Bool
connect_flags_ok flags =
    let will_qos_raw = bit_and flags 0x18 / 2 ^ 3 in
    if ltb 2 will_qos_raw
    then false
    else if not (has_bit flags 0x04) && (not (will_qos_raw == 0) || has_bit flags 0x20)
    then false
    else not (has_bit flags 0x40 && not (has_bit flags 0x80))

unfoldable pub parse_connect : Bytes → Parsed ConnectPacket
parse_connect body =
    let (name, r1) = Reader.utf8 (reader body) in
    let (level, r2) = Reader.u8 r1 in
    let (flags, r3) = Reader.u8 r2 in
    let (keepalive, r4) = Reader.u16 r3 in
    if not r4.ok
    then error truncated
    else if has_bit flags 0x01
    then error malformed
    else if not (connect_flags_ok flags)
    then error malformed
    else connect_payload (view_eq name protocol_name) level flags keepalive r4

pub record PublishPacket : Type 0 where
  pub topic : Bytes
  pub payload : Bytes
  pub packet_id : ℕ
  pub qos : QoS
  pub retain : Bool
  pub dup : Bool

abbrev pub is_qos_0 : QoS → Bool
is_qos_0 at_most_once = true
is_qos_0 _ = false

-- The body of a PUBLISH of a known QoS.
unfoldable pub publish_body : QoS → Bool → Bool → Bytes → Parsed PublishPacket
publish_body qos dup retain body =
    let (topic, r1) = Reader.utf8 (reader body) in
    let (packet_id, r2) = if is_qos_0 qos then (0, r1) else Reader.u16 r1 in
    if not r2.ok
    then error truncated
    else if not (is_qos_0 qos) && packet_id == 0
    then error malformed
    else packet (record {
      topic = topic;
      payload = (Reader.rest r2).0;
      packet_id = packet_id;
      qos = qos;
      retain = retain;
      dup = dup;
    })

unfoldable pub parse_publish : ℕ → Bytes → Parsed PublishPacket
parse_publish first_byte body =
    let flags = packet_flags first_byte in
    let qos_raw = bit_and flags publish_qos_mask / 2 ^ publish_qos_shift in
    let qos = qos_of_code qos_raw in
    let dup = has_bit flags publish_dup_bit in
    if ltb 2 qos_raw
    then error malformed
    else if is_qos_0 qos && dup
    then error malformed
    else publish_body qos dup (has_bit flags publish_retain_bit) body

unfoldable pub parse_packet_id_only : Bytes → Parsed ℕ
parse_packet_id_only body =
    let (id, r) = Reader.u16 (reader body) in
    if not r.ok
    then error truncated
    else if not (at_end r)
    then error malformed
    else if id == 0
    then error malformed
    else packet id
