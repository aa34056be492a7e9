-- ===== src/Tests/Topics.antt =====
-- Topic names and filters, as they come off the wire.
use minimosq_mqtt.Prelude.{◌≤◌, ◌≡◌, refl, ◌≢◌, ◌↔◌, true, false, [], ◌∷◌, arith, Bytes, length}
use minimosq_mqtt.Protocol.Constants.{max_utf8_len}
use minimosq_mqtt.Protocol.Utf8.{utf8_valid}
use minimosq_mqtt.Protocol.Utf8.WellFormed.{WellFormed, utf8_valid-WellFormed}
use minimosq_mqtt.Topic.{
  topic_filter_covers, topic_matches, topic_filter_valid, match_loop, cover_loop, level, next_level,
}
use minimosq_mqtt.Topic.Levels.{split}
use minimosq_mqtt.Topic.Matching.{TopicMatch, topic_matches-TopicMatch}
use minimosq_mqtt.Topic.Covering.{topic_filter_covers-matches, topic_filter_covers_incomplete}
use minimosq_mqtt.Topic.Validity.{levels_valid, topic_filter_valid-levels}
use minimosq_mqtt.Core.Span.{view_eq, same_bytes}

-- "s/#", "s/+/t", "s/1/t"
abbrev all_sensors : Bytes
all_sensors = b's' ∷ b'/' ∷ b'#' ∷ []

abbrev temperatures : Bytes
temperatures = b's' ∷ b'/' ∷ b'+' ∷ b'/' ∷ b't' ∷ []

abbrev temperature : Bytes
temperature = b's' ∷ b'/' ∷ b'1' ∷ b'/' ∷ b't' ∷ []

topic_filter_covers-matches_example : topic_matches all_sensors temperature ≡ true
unfolding topic_filter_covers topic_matches match_loop cover_loop level next_level view_eq
    same_bytes
topic_filter_covers-matches_example =
    topic_filter_covers-matches all_sensors temperatures temperature refl refl

topic_matches-TopicMatch_example :
    (topic_matches temperatures temperature ≡ true) ↔ TopicMatch temperatures temperature
topic_matches-TopicMatch_example = topic_matches-TopicMatch temperatures temperature

topic_filter_covers_incomplete_example :
    (topic_matches (b'+' ∷ b'/' ∷ b'#' ∷ []) temperature ≡ true)
    × (topic_filter_covers (b'+' ∷ b'/' ∷ b'#' ∷ []) (b'#' ∷ []) ≡ false)
unfolding topic_matches match_loop level next_level
topic_filter_covers_incomplete_example = topic_filter_covers_incomplete temperature refl

topic_filter_valid-levels_example : (topic_filter_valid temperatures ≡ true) ↔ (
    (temperatures ≢ [])
    × (length temperatures ≤ max_utf8_len)
    × (utf8_valid temperatures ≡ true)
    × (levels_valid (split temperatures) ≡ true))
topic_filter_valid-levels_example = topic_filter_valid-levels temperatures

-- "é€" with a four-byte character
abbrev text : Bytes
text = 0xc3 ∷ 0xa9 ∷ 0xe2 ∷ 0x82 ∷ 0xac ∷ 0xf0 ∷ 0x9f ∷ 0x98 ∷ 0x80 ∷ []

utf8_valid-WellFormed_example : (utf8_valid text ≡ true) ↔ WellFormed text
utf8_valid-WellFormed_example = utf8_valid-WellFormed text (ground arith)
