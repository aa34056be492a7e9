-- ===== src/Broker/ClientId.antt =====
-- include/minimosq/broker/broker.hpp: the client ids that the broker assigns, "mmq-<n>".
pub mod Fresh
use minimosq_mqtt.Prelude.{
  ℕ, zero, suc, ◌+◌, ◌/◌, ◌%◌, ◌^◌, Bool, true, false, not, Option, none, some, [], ◌∷◌, ◌++◌, ltb,
  ◌==◌, if◌then◌else◌, Bytes, length,
}
use minimosq_mqtt.Core.Span.{view_eq}
use minimosq_mqtt.Core.Pool.{find}
use minimosq_mqtt.Broker.State.{Broker}

abbrev pub auto_id_prefix : Bytes
auto_id_prefix = b'm' ∷ b'm' ∷ b'q' ∷ b'-' ∷ []

-- The loop of `uses_reserved_prefix`.
unfoldable pub starts_with_all : Bytes → Bytes → Bool
starts_with_all [] id = true
starts_with_all (p ∷ ps) [] = false
starts_with_all (p ∷ ps) (c ∷ id) =
    let rest = starts_with_all ps id in if not (c == p) then false else rest

unfoldable pub uses_reserved_prefix : Bytes → Bool
uses_reserved_prefix id =
    if ltb (length id) (length auto_id_prefix) then false else starts_with_all auto_id_prefix id

-- The two loops over the digits: the last digit is found first and written last. A uint16_t has five.
unfoldable pub digits : ℕ → ℕ → Bytes → Bytes
digits zero v acc = acc
digits (suc n) v acc =
    let more = digits n (v / 10) ((b'0' + v % 10) ∷ acc) in
    if v / 10 == 0 then (b'0' + v % 10) ∷ acc else more

unfoldable pub auto_id : ℕ → Bytes
auto_id n = auto_id_prefix ++ digits 5 n []

module _ {T A : Type 0} where
  -- `sessions_.find` by client id.
  unfoldable pub find_client : Bytes → Broker T A → Option ℕ
  find_client id b = find (λ s. view_eq s.client_id id) b.sessions

  -- The `while (true)` of `generate_client_id`; `none` means that the fuel ran out.
  unfoldable pub id_search : ℕ → ℕ → Broker T A → Option ℕ
  id_search zero counter b = none
  id_search (suc n) counter b =
      let next = (counter + 1) % 2 ^ 16 in
      let later = id_search n next b in
      elim (find_client (auto_id next) b) [ none ↦ some next | some si ↦ later ]

  -- A round that goes on has met a session with its id, so the slots bound the rounds.
  unfoldable pub generate_client_id : Broker T A → Option (Bytes × Broker T A)
  generate_client_id b = elim (id_search (suc (length b.sessions.slots)) b.auto_id_counter b) [
    | none ↦ none
    | some n ↦ some (auto_id n, record b { auto_id_counter = n })
  ]
