-- ===== src/Broker/Session.antt =====
-- include/minimosq/broker/session.hpp: what the broker keeps for a client. Traits are an argument where
-- a capacity matters; the policy's context is a parameter.
pub mod PacketIds
use minimosq_mqtt.Prelude.{
  ℕ, zero, suc, ◌+◌, ◌%◌, ◌^◌, Bool, true, false, not, ◌&&◌, ◌||◌, Option, none, some, List, [],
  ◌∷◌, ◌==◌, if◌then◌else◌, Bytes, length,
}
use minimosq_mqtt.Core.Span.{view_eq}
use minimosq_mqtt.Core.StaticVector.{remove_ordered}
use minimosq_mqtt.Protocol.Constants.{QoS, at_most_once}

pub data OutState : Type 0 where
  queued awaiting_puback awaiting_pubrec awaiting_pubcomp : OutState

abbrev pub state_eq : OutState → OutState → Bool
state_eq queued queued = true
state_eq awaiting_puback awaiting_puback = true
state_eq awaiting_pubrec awaiting_pubrec = true
state_eq awaiting_pubcomp awaiting_pubcomp = true
state_eq _ _ = false

pub record Subscription : Type 0 where
  pub filter : Bytes
  pub granted : QoS
  pub retain_pending : Bool

pub record OutMsg : Type 0 where
  pub topic : Bytes
  pub payload : Bytes
  pub packet_id : ℕ
  pub qos : QoS
  pub state : OutState
  pub retain : Bool
  pub dup : Bool
  pub resend_pubrel : Bool

abbrev pub no_conn : ℕ
no_conn = 0xffff

pub record Session {ℓ} (AuthCtx : Type ℓ) : Type ℓ where
  pub client_id : Bytes
  pub subs : List Subscription
  pub pending : List OutMsg
  pub last_packet_id : ℕ
  pub inbound_qos2 : List ℕ
  pub will_topic : Bytes
  pub will_payload : Bytes
  pub will_qos : QoS
  pub will_retain : Bool
  pub has_will : Bool
  pub retain_cursor : ℕ
  pub clean_session : Bool
  pub conn : ℕ
  pub disconnect_ms : ℕ
  pub disconnect_order : ℕ
  pub auth_ctx : AuthCtx

-- A default-constructed session, with the default context.
abbrev pub new_session {ℓ} : {AuthCtx : Type ℓ} → AuthCtx → Session AuthCtx
new_session ctx = record {
  client_id = [];
  subs = [];
  pending = [];
  last_packet_id = 0;
  inbound_qos2 = [];
  will_topic = [];
  will_payload = [];
  will_qos = at_most_once;
  will_retain = false;
  has_will = false;
  retain_cursor = 0;
  clean_session = true;
  conn = no_conn;
  disconnect_ms = 0;
  disconnect_order = 0;
  auth_ctx = ctx;
}

-- The loop of `find_sub`: the index of the subscription.
unfoldable pub find_sub : Bytes → List Subscription → Option ℕ
find_sub filter [] = none
find_sub filter (sub ∷ subs) =
    let later = elim (find_sub filter subs) as (λ _. Option ℕ) [
      | none ↦ none
      | some i ↦ some (suc i)
    ] in
    if view_eq sub.filter filter then some 0 else later

unfoldable pub has_inbound_qos2 : ℕ → List ℕ → Bool
has_inbound_qos2 id [] = false
has_inbound_qos2 id (v ∷ vs) = let rest = has_inbound_qos2 id vs in if v == id then true else rest

-- The loop of `remove_inbound_qos2` up to the index that it finds.
unfoldable pub inbound_index : ℕ → List ℕ → Option ℕ
inbound_index id [] = none
inbound_index id (v ∷ vs) =
    let later = elim (inbound_index id vs) as (λ _. Option ℕ) [
      | none ↦ none
      | some i ↦ some (suc i)
    ] in
    if v == id then some 0 else later

unfoldable pub remove_inbound_qos2 : ℕ → List ℕ → List ℕ
unfolding inbound_index remove_ordered
remove_inbound_qos2 id vs = elim (inbound_index id vs) [ none ↦ vs | some i ↦ remove_ordered i vs ]

-- The inner loop of `alloc_packet_id`.
unfoldable pub id_in_use : ℕ → List OutMsg → Bool
id_in_use id [] = false
id_in_use id (m ∷ ms) =
    let rest = id_in_use id ms in
    if not (state_eq m.state queued) && (m.packet_id == id) then true else rest

-- `++last_packet_id`, on a uint16_t, and past zero.
abbrev pub next_id : ℕ → ℕ
next_id last = let n = (last + 1) % 2 ^ 16 in if n == 0 then 1 else n

-- The `while (in_use)`; `none` means that the fuel ran out.
unfoldable pub id_loop : ℕ → ℕ → List OutMsg → Option ℕ
unfolding id_in_use
id_loop zero last pending = none
id_loop (suc fuel) last pending =
    let later = id_loop fuel (next_id last) pending in
    if id_in_use (next_id last) pending then later else some (next_id last)

-- A round that goes on has met a message with its identifier, so the messages bound the rounds.
unfoldable pub alloc_packet_id {ℓ} :
    {AuthCtx : Type ℓ} → Session AuthCtx → Option (ℕ × Session AuthCtx)
unfolding id_loop
alloc_packet_id s = elim (id_loop (suc (length s.pending)) s.last_packet_id s.pending) [
  | none ↦ none
  | some id ↦ some (id, record s { last_packet_id = id })
]

-- The index of the first pending message with the identifier in one of the two states.
unfoldable pub find_pending : ℕ → OutState → OutState → List OutMsg → Option ℕ
find_pending id a b [] = none
find_pending id a b (m ∷ ms) =
    let later = elim (find_pending id a b ms) as (λ _. Option ℕ) [
      | none ↦ none
      | some i ↦ some (suc i)
    ] in
    if (m.packet_id == id) && (state_eq m.state a || state_eq m.state b) then some 0 else later
