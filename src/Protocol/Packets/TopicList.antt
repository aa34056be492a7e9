-- ===== src/Protocol/Packets/TopicList.antt =====
-- include/minimosq/protocol/packets.hpp: `TopicListParser`, and the loop that drains it.
use minimosq_mqtt.Prelude.{
  ℕ, zero, suc, ◌+◌, Bool, not, Option, none, some, List, [], ◌∷◌, ltb, ◌==◌, if◌then◌else◌, Bytes,
  length,
}
use minimosq_mqtt.Core.Span.{Err, truncated, malformed, is_ok}
use minimosq_mqtt.Protocol.Constants.{QoS, qos_of_code}
use minimosq_mqtt.Protocol.Reader
use minimosq_mqtt.Protocol.Reader.{Reader, reader, at_end}

pub record TopicListParser : Type 0 where
  pub r : Reader
  pub packet_id : ℕ
  pub count : ℕ
  pub status : Err
  pub with_qos : Bool

-- The constructor
unfoldable pub topic_list : Bytes → Bool → TopicListParser
topic_list body with_qos =
    let (id, r) = Reader.u16 (reader body) in
    record {
      r = r;
      packet_id = id;
      count = 0;
      status = if not r.ok then truncated else if id == 0 then malformed else Err.ok;
      with_qos = with_qos;
    }

-- The part of `next` that reads an entry.
unfoldable pub next_entry : TopicListParser → Option (Bytes × QoS) × TopicListParser
next_entry p =
    let (filter, r1) = Reader.utf8 p.r in
    let (q, r2) = if p.with_qos then Reader.u8 r1 else (0, r1) in
    if not r2.ok
    then (none, record p { r = r2; status = truncated })
    else if ltb 2 q
    then (none, record p { r = r2; status = malformed })
    else (some (filter, qos_of_code q), record p { r = r2; count = p.count + 1 })

-- `next`: `none` is `return false`.
unfoldable pub next : TopicListParser → Option (Bytes × QoS) × TopicListParser
next p =
    if not (is_ok p.status)
    then (none, p)
    else if at_end p.r
    then (none, if p.count == 0 then record p { status = malformed } else p)
    else next_entry p

-- `while (p.next(filter, qos))`: the entries in order, and the parser at the end.
unfoldable pub drain : ℕ → TopicListParser → List (Bytes × QoS) × TopicListParser
drain zero p = ([], p)
drain (suc fuel) p = elim (next p).0 [
  | none ↦ ([], (next p).1)
  | some e ↦ let (es, q) = drain fuel (next p).1 in (e ∷ es, q)
]

-- An entry takes two bytes at least, so the body's length is fuel enough.
unfoldable pub entries : Bytes → Bool → List (Bytes × QoS) × TopicListParser
unfolding drain
entries body with_qos = drain (suc (length body)) (topic_list body with_qos)
