-- ===== src/Tests/Broker.antt =====
-- The theorems on the broker at concrete inputs: a broker of two connections, one with a session.
use minimosq_mqtt.Prelude.{
  subst, ℕ, zero, suc, ◌+◌, ◌%◌, ◌^◌, ◌≤◌, ◌<◌, ◌≡◌, refl, ◌≢◌, ◌↔◌, ◌⊎◌, Bool, true, false, none,
  some, List, [], ◌∷◌, ◌++◌, arith, Bytes, get_elem?, length,
}
use minimosq_mqtt.Core.Span.{Err}
use minimosq_mqtt.Protocol.Constants.{QoS, at_most_once}
use minimosq_mqtt.Protocol.Packets.Parse
use minimosq_mqtt.Protocol.Packets.Parse.{parse_connect, ConnectPacket}
use minimosq_mqtt.Broker.Session.{Session, new_session, no_conn}
use minimosq_mqtt.Broker.State.{
  Traits, default_traits, Env, allow_all, new_conn, new_broker, Broker, conn_at, session_at,
  no_session,
}
use minimosq_mqtt.Broker.Clock.{
  refresh_deadline, deadline_passed, window_ms, deadline_passed-refresh_deadline,
}
use minimosq_mqtt.Broker.Entry.{conn_data, on_packet, conn_open, conn_closed, tick, publish_message}
use minimosq_mqtt.Broker.Links.{links}
use minimosq_mqtt.Broker.Links.Attach.{IsAttached}
use minimosq_mqtt.Broker.Links.Packet.{on_packet-IsAttached}
use minimosq_mqtt.Broker.Healthy.{IsBounded, IsHealthy}
use minimosq_mqtt.Broker.Healthy.Reachable.{start, opened, ticked, reachable-IsHealthy}
use minimosq_mqtt.Broker.Links.Data.{conn_data-IsPaired}
use minimosq_mqtt.Broker.Links.Rules.{IsPaired, owner, IdsDiffer}
use minimosq_mqtt.Broker.Links.Flush.{flush_dead-Settled}
use minimosq_mqtt.Broker.Links.Entry.{calls-IsPaired, on_packet-links}
use minimosq_mqtt.Broker.State.{is_connected}
use minimosq_mqtt.Broker.ClientId.{
  uses_reserved_prefix, starts_with_all, find_client, auto_id, generate_client_id,
}
use minimosq_mqtt.Broker.ClientId.Fresh.{generate_client_id-IsFresh}
use minimosq_mqtt.Broker.Connect.{handle_connect}
use minimosq_mqtt.Broker.Connect.Reserved.{handle_connect_reserved}
use minimosq_mqtt.Broker.Subscribe.{handle_subscribe}
use minimosq_mqtt.Broker.Subscribe.Atomic.{IsGood, handle_subscribe_atomic}
use minimosq_mqtt.Broker.Acks.{track_qos2}
use minimosq_mqtt.Broker.Acks.Redelivery.{track_qos2_twice}
use minimosq_mqtt.Broker.Stable.Sessions.{stored, IsDead}
use minimosq_mqtt.Broker.Teardown.{flush_dead, is_doomed, oldest_disconnected_session}
use minimosq_mqtt.Broker.Teardown.Oldest.{oldest_disconnected_session_offline}

abbrev small : Traits
small = record default_traits {
  max_connections = 2;
  max_sessions = 2;
  max_topic_len = 8;
  max_payload_len = 8;
  max_packet_size = 64;
}

-- A transport that keeps what was sent and takes everything.
abbrev env : Env (List (ℕ × Bytes)) (Unit {0})
env = allow_all small (λ tr ci pkt. (tr ++ (ci, pkt) ∷ [], true)) (λ tr ci. tr ++ (ci, []) ∷ [])

abbrev alice : Session (Unit {0})
alice = record (new_session tt) { client_id = b'a' ∷ []; conn = 0; inbound_qos2 = 7 ∷ [] }

-- Connection 0 has a session, connection 1 has not.
abbrev broker : Broker (List (ℕ × Bytes)) (Unit {0})
broker = record {
  conns =
      record new_conn { active = true; session = 0; keepalive_s = 10 }
      ∷ record new_conn { active = true }
      ∷ [];
  sessions = record { slots = some alice ∷ none ∷ []; count = 1 };
  retained = record { slots = none ∷ none ∷ []; count = 0 };
  now_ms = 0;
  disconnect_order = 0;
  auto_id_counter = 0;
  tr = [];
  events = [];
  hung = false;
}

conn_sides :
    (ci : ℕ) (a : Bool) (si : ℕ)
    → get_elem? (links broker).0 ci ≡ some (a, si)
    → si ≢ no_session
    → (a ≡ true) × (owner (links broker).1 si ≡ some ci)
unfolding links owner
conn_sides zero a si h n = grind (arith, h)
conn_sides (suc zero) a si h n = absurd (n (grind (arith, h)))
conn_sides (suc (suc ci)) a si h n = cc

session_sides :
    (si ci : ℕ)
    → owner (links broker).1 si ≡ some ci
    → ci ≢ no_conn
    → get_elem? (links broker).0 ci ≡ some (true, si)
unfolding links owner
session_sides zero ci h n = grind (arith, h)
session_sides (suc zero) ci h n = cc
session_sides (suc (suc si)) ci h n = cc

ids : IdsDiffer (links broker).1
unfolding links
ids zero zero id x y e d = refl
ids zero (suc zero) id x y e d = cc
ids zero (suc (suc j)) id x y e d = cc
ids (suc zero) j id x y e d = cc
ids (suc (suc i)) j id x y e d = cc

broker-IsPaired : IsPaired (links broker)
unfolding links
broker-IsPaired = record {
  conn_side = conn_sides;
  session_side = session_sides;
  ids_differ = ids;
  few_conns = omega arith;
  few_sessions = omega arith;
}

deadline_passed-refresh_deadline_example :
    (deadline_passed
        ((4294967290 + 15000) % 2 ^ 32)
        (refresh_deadline small 4294967290 (record new_conn { keepalive_s = 10 })).deadline_ms
      ≡ true)
    ↔ (window_ms small (record new_conn { keepalive_s = 10 }) ≤ 15000)
deadline_passed-refresh_deadline_example =
    deadline_passed-refresh_deadline small (record new_conn { keepalive_s = 10 }) 4294967290 15000
      (omega arith) (omega arith) (omega arith) (omega arith) (omega arith)

abbrev dying : Broker (List (ℕ × Bytes)) (Unit {0})
dying = record broker {
  conns = record new_conn { active = true; dead = true; session = 0 } ∷ new_conn ∷ [];
}

flush_dead-Settled_example : is_doomed (conn_at 0 (flush_dead env dying)) ≡ false
flush_dead-Settled_example = flush_dead-Settled env dying refl 0 (omega arith)

calls-IsPaired_example :
    ((ci now : ℕ) → IsPaired (links (conn_open env ci now broker).1))
    × ((ci : ℕ) → IsPaired (links (conn_closed env ci broker)))
    × ((now : ℕ) → IsPaired (links (tick env now broker)))
    × ((topic payload : Bytes) (qos : QoS) (retain : Bool)
        → IsPaired (links (publish_message env topic payload qos retain broker).1))
calls-IsPaired_example = calls-IsPaired env broker refl broker-IsPaired

-- A PINGREQ on the connection with the session.
on_packet-links_example : links (on_packet env 0 broker 0xC0 []).0 ≡ links broker
unfolding conn_at
on_packet-links_example = on_packet-links env 0 0xC0 [] broker (λ e. absurd (omega (arith, e)))

abbrev mmq_connect : Bytes
mmq_connect =
    0 ∷ 4 ∷ b'M' ∷ b'Q' ∷ b'T' ∷ b'T' ∷ 4 ∷ 2 ∷ 0 ∷ 10 ∷ 0 ∷ 5 ∷ b'm' ∷ b'm' ∷ b'q' ∷ b'-' ∷ b'7'
    ∷ []

abbrev mmq_packet : ConnectPacket
mmq_packet = record {
  client_id = b'm' ∷ b'm' ∷ b'q' ∷ b'-' ∷ b'7' ∷ [];
  will_topic = [];
  will_payload = [];
  username = [];
  password = [];
  keepalive_s = 10;
  protocol_level = 4;
  will_qos = at_most_once;
  protocol_name_ok = true;
  clean_session = true;
  has_will = false;
  will_retain = false;
  has_username = false;
  has_password = false;
}

mmq_parsed : parse_connect mmq_connect ≡ Parse.packet mmq_packet
unfolding parse_connect minimosq_mqtt.Protocol.Reader.u16 minimosq_mqtt.Protocol.Reader.u8
    minimosq_mqtt.Protocol.Reader.utf8 minimosq_mqtt.Protocol.Reader.len_prefixed_bytes
    minimosq_mqtt.Protocol.Reader.reader minimosq_mqtt.Protocol.Reader.bytes Parse.connect_flags_ok
    Parse.connect_payload minimosq_mqtt.Core.Span.view_eq
mmq_parsed = refl

handle_connect_reserved_example :
    (stored (handle_connect env 1 mmq_connect broker) ≡ stored broker)
    × IsDead 1 (handle_connect env 1 mmq_connect broker)
unfolding conn_at uses_reserved_prefix starts_with_all
handle_connect_reserved_example =
    handle_connect_reserved env 1 mmq_connect mmq_packet broker (omega arith) refl mmq_parsed refl

-- The filter "#a" is ill-formed.
abbrev bad_filter : Bytes
bad_filter = 0 ∷ 9 ∷ 0 ∷ 2 ∷ b'#' ∷ b'a' ∷ []

handle_subscribe_atomic_example :
    IsGood (bad_filter ++ 0 ∷ []) true
    ⊎ ((stored (handle_subscribe env 0 0 (bad_filter ++ 0 ∷ []) broker) ≡ stored broker)
        × IsDead 0 (handle_subscribe env 0 0 (bad_filter ++ 0 ∷ []) broker)
        × ((handle_subscribe env 0 0 (bad_filter ++ 0 ∷ []) broker).tr ≡ []))
handle_subscribe_atomic_example =
    handle_subscribe_atomic env 0 0 (bad_filter ++ 0 ∷ []) broker (omega arith)

abbrev offline : Broker (List (ℕ × Bytes)) (Unit {0})
offline = record broker {
  sessions = record { slots = some alice ∷ some (record alice { conn = no_conn }) ∷ []; count = 2 };
}

oldest_disconnected_session_offline_example :
    ((i : ℕ) × (s : Session (Unit {0})) × (oldest_disconnected_session offline ≡ some (i, s))
      × (get_elem? offline.sessions.slots i ≡ some (some s))
      × (is_connected s ≡ false))
    ⊎ ((oldest_disconnected_session offline ≡ none)
        × ((i : ℕ) (s : Session (Unit {0}))
            → get_elem? offline.sessions.slots i ≡ some (some s)
            → is_connected s ≡ true))
oldest_disconnected_session_offline_example = oldest_disconnected_session_offline offline

-- A client "b" on connection 1, which has no session.
abbrev b_connect : Bytes
b_connect = 0 ∷ 4 ∷ b'M' ∷ b'Q' ∷ b'T' ∷ b'T' ∷ 4 ∷ 2 ∷ 0 ∷ 10 ∷ 0 ∷ 1 ∷ b'b' ∷ []

on_packet-IsAttached_example : IsAttached 1 (on_packet env 1 broker 0x10 b_connect).0
unfolding conn_at
on_packet-IsAttached_example =
    on_packet-IsAttached env 1 0x10 b_connect broker refl broker-IsPaired refl refl

-- The CONNECT of client "b" arrives whole on connection 1.
abbrev b_bytes : Bytes
b_bytes = 0x10 ∷ 13 ∷ b_connect

broker-queues :
    (i : ℕ) (s : Session (Unit {0}))
    → get_elem? broker.sessions.slots i ≡ some (some s)
    → IsBounded env s
broker-queues zero s e =
    subst (IsBounded env) {x = alice} {y = s} (grind (arith, e)) (omega arith, omega arith)
broker-queues (suc zero) s e = absurd (grind (arith, e))
broker-queues (suc (suc i)) s e = cc

broker-IsHealthy : IsHealthy env broker
broker-IsHealthy = record {
  ended = refl;
  counter = omega arith;
  table = refl;
  queues = broker-queues;
}

conn_data-IsPaired_example :
    (e : Err) × (b' : Broker (List (ℕ × Bytes)) (Unit {0})) × (conn_data env 1 b_bytes 5 broker
      ≡ some (e, b'))
    × IsPaired (links b')
    × (length b'.conns ≡ 2)
    × IsHealthy env b'
unfolding conn_at minimosq_mqtt.Protocol.Frame.new_parser
conn_data-IsPaired_example =
    conn_data-IsPaired env 1 5 b_bytes broker refl broker-IsPaired (omega arith) (omega arith)
      broker-IsHealthy (ground arith) tt

-- A connection is opened and the clock ticks.
abbrev ticked_broker : Broker (List (ℕ × Bytes)) (Unit {0})
ticked_broker = tick env 9 (conn_open env 0 5 (new_broker env [])).1

reachable-IsHealthy_example : IsHealthy env ticked_broker
reachable-IsHealthy_example =
    reachable-IsHealthy env [] (omega arith) (omega arith) ticked_broker
      (ticked 9 _ (opened 0 5 _ start))

generate_client_id-IsFresh_example :
    (n : ℕ) × (generate_client_id broker ≡ some (auto_id n, record broker { auto_id_counter = n }))
    × (n < 2 ^ 16)
    × (find_client (auto_id n) broker ≡ none)
    × (uses_reserved_prefix (auto_id n) ≡ true)
generate_client_id-IsFresh_example = generate_client_id-IsFresh broker (omega arith) (omega arith)

track_qos2_twice_example :
    (s' : Session (Unit {0})) × (session_at 0 (track_qos2 env 0 0 alice 9 broker).1 ≡ some s')
    × (track_qos2 env 0 0 s' 9 (track_qos2 env 0 0 alice 9 broker).1
        ≡ (false, (track_qos2 env 0 0 alice 9 broker).1))
unfolding minimosq_mqtt.Core.Pool.at
track_qos2_twice_example = track_qos2_twice env 0 0 alice 9 broker (omega arith) refl
