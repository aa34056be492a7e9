-- ===== src/Tests/Policy.antt =====
-- A policy with two users and one rule.
use minimosq_mqtt.Prelude.{◌≡◌, refl, true, some, [], ◌∷◌, arith}
use minimosq_mqtt.Protocol.Constants.{accepted}
use minimosq_mqtt.Topic.{
  topic_filter_covers, topic_matches, match_loop, cover_loop, level, next_level,
}
use minimosq_mqtt.Core.Span.{view_eq, same_bytes}
use minimosq_mqtt.Broker.TableAcl.{
  TableAcl, new_acl, read, authenticate, allowed, authorize_subscribe, authorize_receive,
}
use minimosq_mqtt.Broker.TableAcl.Tables.{
  first_match, authenticate-first_match, authorize_subscribe-receive,
}

abbrev policy : TableAcl
policy = record new_acl {
  users =
      record { name = b'a' ∷ []; password = b'x' ∷ []; role = 4 }
      ∷ record { name = b'a' ∷ []; password = b'y' ∷ []; role = 7 }
      ∷ [];
  rules = record { pattern = b's' ∷ b'/' ∷ b'#' ∷ []; role = 7; access = read } ∷ [];
}

authenticate-first_match_example :
    authenticate policy [] (some (b'a' ∷ [])) (some (b'y' ∷ [])) ≡ (accepted, some 7)
unfolding first_match view_eq same_bytes
authenticate-first_match_example =
    authenticate-first_match policy [] (b'a' ∷ []) (some (b'y' ∷ [])) (ground arith) (ground arith)
      (ground arith)

authorize_subscribe-receive_example : authorize_receive policy 7 (b's' ∷ b'/' ∷ b'1' ∷ []) ≡ true
unfolding authorize_subscribe allowed topic_filter_covers cover_loop topic_matches match_loop level
    next_level view_eq same_bytes
authorize_subscribe-receive_example =
    authorize_subscribe-receive policy 7 (b's' ∷ b'/' ∷ b'+' ∷ []) (b's' ∷ b'/' ∷ b'1' ∷ []) refl
      refl
