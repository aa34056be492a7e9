-- ===== src/Tests/Codec.antt =====
-- The wire format on short packets.
use minimosq_mqtt.Prelude.{
  ℕ, ◌+◌, ◌≡◌, refl, Bool, true, false, some, List, [], ◌∷◌, ◌++◌, arith, Bytes, length,
}
use minimosq_mqtt.Core.Span.{Err}
use minimosq_mqtt.Protocol.Constants.{publish, at_least_once, make_first_byte}
use minimosq_mqtt.Protocol.Writer
use minimosq_mqtt.Protocol.Writer.{remaining_length}
use minimosq_mqtt.Protocol.Writer.Appends.{Appends, writes_append}
use minimosq_mqtt.Protocol.Frame.{FrameParser, first_byte, new_parser, feed, result}
use minimosq_mqtt.Protocol.Frame.Bytewise.{run}
use minimosq_mqtt.Protocol.Frame.Bytewise.Loop.{feed-run}
use minimosq_mqtt.Protocol.Frame.Stream.{packet}
use minimosq_mqtt.Protocol.Frame.Stream.Packets.{
  feed_all, deliver_all, feed_all-deliver_all, feed_stops,
}
use minimosq_mqtt.Protocol.Packets.Parse.{Parsed, parse_publish}
use minimosq_mqtt.Protocol.Packets.Build.{build_publish, publish_flags}
use minimosq_mqtt.Protocol.Packets.Wire.{publish_wire, build_publish-packet}
use minimosq_mqtt.Protocol.Packets.RoundTrip.{parse_publish-publish_wire}

-- The caller counts the bytes of the bodies that it is given.
abbrev count_bytes : ℕ → ℕ → Bytes → ℕ × Bool
count_bytes s first body = (s + length body, true)

abbrev only_one : ℕ → ℕ → Bytes → ℕ × Bool
only_one s first body = (s + 1, false)

abbrev two_packets : List (ℕ × Bytes)
two_packets = (0x40, 0 ∷ 7 ∷ []) ∷ (0xc0, []) ∷ []

abbrev cut : List Bytes
cut = (0x40 ∷ []) ∷ (2 ∷ 0 ∷ []) ∷ (7 ∷ 0xc0 ∷ 0 ∷ []) ∷ []

feed_all-deliver_all_example :
    (q : FrameParser) × (q.state ≡ first_byte)
    × (feed_all 16 count_bytes new_parser 0 cut
        ≡ some (Err.ok, q, deliver_all 16 count_bytes 0 two_packets))
unfolding new_parser Writer.varint_bytes
feed_all-deliver_all_example =
    feed_all-deliver_all 16 count_bytes (λ s f b. refl) two_packets cut new_parser 0 refl
      (ground arith) (ground arith) refl

feed_stops_example :
    (q : FrameParser) × (q.state ≡ first_byte)
    × (feed 16 only_one new_parser 0 (packet 0x40 (0 ∷ 7 ∷ []) ++ (0xc0 ∷ 0 ∷ []))
        ≡ some (Err.ok, q, 1))
unfolding new_parser
feed_stops_example =
    feed_stops 16 only_one 0x40 (0 ∷ 7 ∷ []) (0xc0 ∷ 0 ∷ []) new_parser 0 refl (ground arith)
      (ground arith) refl

feed-run_example :
    feed 16 count_bytes new_parser 0 (0x40 ∷ 2 ∷ 0 ∷ [])
    ≡ some (result 16 count_bytes (run 16 count_bytes new_parser 0 (0x40 ∷ 2 ∷ 0 ∷ [])))
unfolding new_parser
feed-run_example = feed-run 16 count_bytes new_parser 0 (0x40 ∷ 2 ∷ 0 ∷ []) (ground arith) tt

abbrev topic : Bytes
topic = b't' ∷ b'/' ∷ b'1' ∷ []

parse_publish-publish_wire_example :
    parse_publish
      (make_first_byte publish (publish_flags at_least_once true false))
      (publish_wire topic at_least_once 258 (1 ∷ 2 ∷ []))
    ≡ Parsed.packet (record {
      topic = topic;
      payload = 1 ∷ 2 ∷ [];
      packet_id = 258;
      qos = at_least_once;
      retain = true;
      dup = false;
    })
parse_publish-publish_wire_example =
    parse_publish-publish_wire topic (1 ∷ 2 ∷ []) at_least_once true false 258 (ground arith)
      (omega arith) (omega arith) refl

build_publish-packet_example :
    build_publish 64 topic (1 ∷ 2 ∷ []) at_least_once true false 258
    ≡ packet
        (make_first_byte publish (publish_flags at_least_once true false))
        (publish_wire topic at_least_once 258 (1 ∷ 2 ∷ []))
build_publish-packet_example =
    build_publish-packet 64 topic (1 ∷ 2 ∷ []) at_least_once true false 258 (ground arith)
      (omega arith) (ground arith)

abbrev small_writer : Writer.Writer
small_writer = record { out = 1 ∷ []; cap = 4; ok = true }

writes_append_example :
    Appends (200 ∷ []) small_writer (Writer.u8 200 small_writer)
    × Appends (0 ∷ 200 ∷ []) small_writer (Writer.u16 200 small_writer)
    × Appends topic small_writer (Writer.bytes topic small_writer)
    × Appends (0 ∷ 3 ∷ topic) small_writer (Writer.utf8 topic small_writer)
    × Appends (remaining_length 200) small_writer (Writer.varint 200 small_writer)
writes_append_example =
    writes_append small_writer 200 topic (ground arith) (omega arith) (ground arith)
