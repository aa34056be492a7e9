-- ===== src/Protocol/Constants.antt =====
-- include/minimosq/protocol/constants.hpp: packet types, flag bits and the fixed header's bytes.
use minimosq_mqtt.Prelude.{
  ℕ, zero, suc, ◌+◌, ◌*◌, ◌/◌, ◌%◌, ◌<◌, ◌≡◌, ◌^◌, refl, ◌||◌, ap, ◌∙◌, and_0f, Bool, true, arith,
  ltb, ◌==◌, bit_and, bit_or, if◌then◌else◌, bit_or-shift,
}

-- `PacketType`. The cast of a nibble may also give 0 or 15, which no enumerator names.
pub data PacketType : Type 0 where
  reserved_0 connect connack publish puback pubrec pubrel pubcomp : PacketType
  subscribe suback unsubscribe unsuback pingreq pingresp disconnect reserved_15 : PacketType

-- The enumerator's value.
abbrev pub type_code : PacketType → ℕ
type_code reserved_0 = 0
type_code connect = 1
type_code connack = 2
type_code publish = 3
type_code puback = 4
type_code pubrec = 5
type_code pubrel = 6
type_code pubcomp = 7
type_code subscribe = 8
type_code suback = 9
type_code unsubscribe = 10
type_code unsuback = 11
type_code pingreq = 12
type_code pingresp = 13
type_code disconnect = 14
type_code reserved_15 = 15

-- The cast from a nibble.
unfoldable pub type_of_code : ℕ → PacketType
type_of_code n =
    if n == 0
    then reserved_0
    else if n == 1
    then connect
    else if n == 2
    then connack
    else if n == 3
    then publish
    else if n == 4
    then puback
    else if n == 5
    then pubrec
    else if n == 6
    then pubrel
    else if n == 7
    then pubcomp
    else if n == 8
    then subscribe
    else if n == 9
    then suback
    else if n == 10
    then unsubscribe
    else if n == 11
    then unsuback
    else if n == 12
    then pingreq
    else if n == 13
    then pingresp
    else if n == 14
    then disconnect
    else reserved_15

abbrev pub type_eq : PacketType → PacketType → Bool
type_eq s t = type_code s == type_code t

-- `QoS`
pub data QoS : Type 0 where
  at_most_once at_least_once exactly_once : QoS

abbrev pub qos_code : QoS → ℕ
qos_code at_most_once = 0
qos_code at_least_once = 1
qos_code exactly_once = 2

-- The cast of a number that was checked to be at most 2.
abbrev pub qos_of_code : ℕ → QoS
qos_of_code zero = at_most_once
qos_of_code (suc zero) = at_least_once
qos_of_code (suc (suc _)) = exactly_once

-- `ConnackCode`
pub data ConnackCode : Type 0 where
  accepted unacceptable_protocol identifier_rejected : ConnackCode
  server_unavailable bad_credentials not_authorized : ConnackCode

abbrev pub connack_code : ConnackCode → ℕ
connack_code accepted = 0
connack_code unacceptable_protocol = 1
connack_code identifier_rejected = 2
connack_code server_unavailable = 3
connack_code bad_credentials = 4
connack_code not_authorized = 5

abbrev pub protocol_level_311 : ℕ
protocol_level_311 = 4

abbrev pub suback_failure : ℕ
suback_failure = 0x80

abbrev pub max_remaining_length : ℕ
max_remaining_length = 268435455

abbrev pub max_utf8_len : ℕ
max_utf8_len = 0xffff

unfoldable pub make_first_byte : PacketType → ℕ → ℕ
make_first_byte t flags = bit_or (type_code t * 2 ^ 4) (bit_and flags 0x0f) % 256

unfoldable pub packet_type : ℕ → PacketType
unfolding type_of_code
packet_type first_byte = type_of_code (first_byte / 2 ^ 4)

unfoldable pub packet_flags : ℕ → ℕ
packet_flags first_byte = bit_and first_byte 0x0f

abbrev pub publish_retain_bit : ℕ
publish_retain_bit = 0x01

abbrev pub publish_qos_shift : ℕ
publish_qos_shift = 1

abbrev pub publish_qos_mask : ℕ
publish_qos_mask = 0x06

abbrev pub publish_dup_bit : ℕ
publish_dup_bit = 0x08

-- `varint_size`
unfoldable pub varint_size : ℕ → ℕ
varint_size v = if ltb v 128 then 1 else if ltb v 16384 then 2 else if ltb v 2097152 then 3 else 4

unfoldable pub fixed_flags_valid : PacketType → ℕ → Bool
fixed_flags_valid t flags =
    if type_eq t publish
    then true
    else if type_eq t pubrel || type_eq t subscribe || type_eq t unsubscribe
    then flags == 0x02
    else flags == 0x00

type_code_bound : (t : PacketType) → type_code t < 16
type_code_bound reserved_0 = omega arith
type_code_bound _ = omega arith

pub first_byte_value :
    (t : PacketType) (flags : ℕ) → flags < 16 → make_first_byte t flags ≡ type_code t * 16 + flags
unfolding make_first_byte
first_byte_value t flags h =
    ground
      (arith, type_code_bound t, and_0f flags (omega arith), bit_or-shift 4 (type_code t) flags h)

type_of_code-type_code : (t : PacketType) → type_of_code (type_code t) ≡ t
unfolding type_of_code
type_of_code-type_code reserved_0 = refl
type_of_code-type_code _ = refl

-- The first byte made of a packet type and flags below 16 gives both back to `packet_type` and
-- `packet_flags`.
pub first_byte_fields :
    (t : PacketType) (flags : ℕ)
    → flags < 16
    → (packet_type (make_first_byte t flags) ≡ t) × (packet_flags (make_first_byte t flags) ≡ flags)
unfolding packet_type packet_flags
first_byte_fields t flags h =
    let b = make_first_byte t flags in
    let high : b / 2 ^ 4 ≡ type_code t = omega (arith, first_byte_value t flags h) in
    let low : b % 16 ≡ flags = omega (arith, first_byte_value t flags h) in
    let is_byte : b < 256 = omega (arith, first_byte_value t flags h, type_code_bound t) in
    (ap type_of_code high ∙ type_of_code-type_code t, and_0f b is_byte ∙ low)
