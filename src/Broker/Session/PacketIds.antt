-- ===== src/Broker/Session/PacketIds.antt =====
-- Packet identifiers: the outbound ones that `alloc_packet_id` hands out and the inbound ones that
-- are held between PUBLISH and PUBREL.
use minimosq_mqtt.Prelude.{
  ℕ, zero, suc, ◌+◌, ◌-◌, ◌^◌, ◌≤◌, ◌<◌, ◌≡◌, refl, ◌≢◌, inl, inr, Bool, true, false, not, ◌&&◌,
  some, List, [], ◌∷◌, arith, ltb, leb, ◌==◌, if◌then◌else◌, Bool-cases, length,
}
use minimosq_mqtt.Core.StaticVector.{remove_ordered}
use minimosq_mqtt.Broker.Session.{
  Session, OutMsg, state_eq, queued, has_inbound_qos2, inbound_index, remove_inbound_qos2,
  id_in_use, next_id, id_loop, alloc_packet_id,
}

-- How many increments lead from one identifier to another.
abbrev distance : ℕ → ℕ → ℕ
distance last id = if ltb last id then id - last else id + 65535 - last

abbrev ahead : ℕ → ℕ → ℕ → Bool
ahead last n id = ltb 0 id && ltb 0 (distance last id) && leb (distance last id) n

-- The messages in flight whose identifier is one of the next n.
count_ahead : ℕ → ℕ → List OutMsg → ℕ
count_ahead last n [] = 0
count_ahead last n (m ∷ ms) =
    (if not (state_eq m.state queued) && ahead last n m.packet_id then 1 else 0)
    + count_ahead last n ms

count_ahead-length : (last n : ℕ) (ms : List OutMsg) → count_ahead last n ms ≤ length ms
unfolding count_ahead
count_ahead-length last n [] = omega arith
count_ahead-length last n (m ∷ ms) = ground (arith, count_ahead-length last n ms)

ahead_later :
    (last n id : ℕ)
    → last < 2 ^ 16
    → n < 65535
    → ahead (next_id last) n id ≡ true
    → ahead last (suc n) id ≡ true
ahead_later last n id h k e = ground arith

ahead_next :
    (last n : ℕ)
    → last < 2 ^ 16
    → n < 65535
    → (ahead last (suc n) (next_id last) ≡ true) × (ahead (next_id last) n (next_id last) ≡ false)
ahead_next last n h k = ground arith

count_ahead_later :
    (last n : ℕ) (ms : List OutMsg)
    → last < 2 ^ 16
    → n < 65535
    → count_ahead (next_id last) n ms ≤ count_ahead last (suc n) ms
unfolding count_ahead
count_ahead_later last n [] h k = omega arith
count_ahead_later last n (m ∷ ms) h k =
    ground (arith, ahead_later last n m.packet_id, count_ahead_later last n ms)

count_ahead_next :
    (last n : ℕ) (ms : List OutMsg)
    → last < 2 ^ 16
    → n < 65535
    → id_in_use (next_id last) ms ≡ true
    → count_ahead (next_id last) n ms < count_ahead last (suc n) ms
unfolding count_ahead id_in_use
count_ahead_next last n [] h k e = cc
count_ahead_next last n (m ∷ ms) h k e = ground (
  arith,
  ahead_later last n m.packet_id,
  ahead_next last n,
  count_ahead_later last n ms,
  count_ahead_next last n ms,
)

-- What the loop hands out: a non-zero identifier that no message in flight has.
abbrev pub IsFresh : List OutMsg → ℕ → Type 0
IsFresh ms id = (0 < id) × (id < 2 ^ 16) × (id_in_use id ms ≡ false)

id_loop-IsFresh :
    (n last : ℕ) (ms : List OutMsg)
    → last < 2 ^ 16
    → n ≤ 65535
    → count_ahead last n ms < n
    → (id : ℕ) × (id_loop n last ms ≡ some id) × IsFresh ms id
unfolding id_loop
id_loop-IsFresh zero last ms h k few = absurd (omega arith)
id_loop-IsFresh (suc n) last ms h k few = elim (Bool-cases (id_in_use (next_id last) ms)) [
  | inl e ↦
      let fewer = count_ahead_next last n ms h (omega arith) e in
      let (id, found, fresh) =
        id_loop-IsFresh n (next_id last) ms (ground arith) (omega arith)
          (omega (arith, fewer, few)) in
      (id, rw e found, fresh)
  | inr e ↦ (next_id last, rw e refl, ground arith)
]

-- With fewer than 65535 pending messages and a 16-bit last identifier, `alloc_packet_id` ends
-- and hands out a non-zero 16-bit identifier that no message in flight has; nothing but the last
-- identifier changes.
pub alloc_packet_id-IsFresh {ℓ} :
    {AuthCtx : Type ℓ} (s : Session AuthCtx)
    → s.last_packet_id < 2 ^ 16
    → length s.pending < 65535
    → (id : ℕ) × (alloc_packet_id s ≡ some (id, record s { last_packet_id = id }))
      × IsFresh s.pending id
unfolding alloc_packet_id
alloc_packet_id-IsFresh s h few =
    let (id, found, fresh) =
      id_loop-IsFresh (suc (length s.pending)) s.last_packet_id s.pending h (omega arith)
        (omega (arith, count_ahead-length s.last_packet_id (suc (length s.pending)) s.pending)) in
    (id, rw (found, alloc_packet_id) refl, fresh)

abbrev pub Distinct : List ℕ → Type 0
Distinct [] = Unit
Distinct (v ∷ vs) = (has_inbound_qos2 v vs ≡ false) × Distinct vs

remove_first : (id v : ℕ) (vs : List ℕ) → List ℕ
remove_first id v vs = if v == id then vs else v ∷ remove_inbound_qos2 id vs

remove_inbound_qos2-cons :
    (id v : ℕ) (vs : List ℕ) → remove_inbound_qos2 id (v ∷ vs) ≡ remove_first id v vs
unfolding remove_inbound_qos2 inbound_index remove_ordered remove_first
remove_inbound_qos2-cons id v vs = ground arith

-- `remove_inbound_qos2` on distinct identifiers keeps them distinct; the identifier is no longer
-- held and every other one is held as before.
pub remove_inbound_qos2-Distinct :
    (id : ℕ) (vs : List ℕ)
    → Distinct vs
    → Distinct (remove_inbound_qos2 id vs)
      × (has_inbound_qos2 id (remove_inbound_qos2 id vs) ≡ false)
      × ((other : ℕ)
          → other ≢ id
          → has_inbound_qos2 other (remove_inbound_qos2 id vs) ≡ has_inbound_qos2 other vs)
unfolding has_inbound_qos2 remove_first remove_inbound_qos2 inbound_index
remove_inbound_qos2-Distinct id [] d = (tt, refl, λ other n. refl)
remove_inbound_qos2-Distinct id (v ∷ vs) d =
    let (kept, gone, others) = remove_inbound_qos2-Distinct id vs d.1 in
    let same = others v in
    rw (remove_inbound_qos2-cons id v vs)
      (ground (arith, kept, same), ground (arith, gone), λ other n. ground (arith, others other n))
