-- ===== src/Broker/State.antt =====
-- include/minimosq/broker/broker.hpp, config.hpp and observer.hpp: the state of the broker and what it is
-- parameterised with. A reference to a connection or a session is its index.
use minimosq_mqtt.Prelude.{
  ℕ, ◌+◌, Bool, true, false, not, Option, none, some, List, [], ltb, ◌==◌, if◌then◌else◌, Bytes,
  set, get_elem?, replicate,
}
use minimosq_mqtt.Core.Span.{Err}
use minimosq_mqtt.Core.Pool.{Pool, empty_pool, at, update}
use minimosq_mqtt.Protocol.Constants.{QoS, at_most_once, ConnackCode, accepted}
use minimosq_mqtt.Protocol.Frame.{FrameParser, new_parser, reset}
use minimosq_mqtt.Protocol.Packets.Build.{packet_overhead}
use minimosq_mqtt.Broker.Session.{Session, no_conn}
use minimosq_mqtt.Broker.Retained.{Entry, Limits}

-- `DefaultTraits`: the members that a Traits type has.
pub record Traits : Type 0 where
  pub max_connections : ℕ
  pub max_sessions : ℕ
  pub max_subscriptions_per_session : ℕ
  pub max_topic_len : ℕ
  pub max_client_id_len : ℕ
  pub max_packet_size : ℕ
  pub max_payload_len : ℕ
  pub max_retained : ℕ
  pub max_pending_per_session : ℕ
  pub max_inbound_qos2 : ℕ
  pub connect_timeout_ms : ℕ
  pub max_idle_ms : ℕ
  pub session_expiry_ms : ℕ

abbrev pub default_traits : Traits
default_traits = record {
  max_connections = 8;
  max_sessions = 8;
  max_subscriptions_per_session = 8;
  max_topic_len = 128;
  max_client_id_len = 64;
  max_packet_size = 1024;
  max_payload_len = 512;
  max_retained = 16;
  max_pending_per_session = 8;
  max_inbound_qos2 = 8;
  connect_timeout_ms = 10000;
  max_idle_ms = 0;
  session_expiry_ms = 0;
}

-- The Transport and Security policies. `T` is the state of the transport, `A` is the policy's Context.
pub record Env (T A : Type 0) : Type 0 where
  pub traits : Traits
  pub open traits use *
  pub send : T → ℕ → Bytes → T × Bool
  pub close : T → ℕ → T
  pub default_ctx : A
  pub authenticate : Bytes → Option Bytes → Option Bytes → ConnackCode × A
  pub authorize_publish : A → Bytes → Bool
  pub authorize_subscribe : A → Bytes → Bool
  pub authorize_receive : A → Bytes → Bool

-- `AllowAllSecurity`, over any transport.
abbrev pub allow_all :
    {T : Type 0} → Traits → (T → ℕ → Bytes → T × Bool) → (T → ℕ → T) → Env T (Unit {0})
allow_all traits send close = record {
  traits = traits;
  send = send;
  close = close;
  default_ctx = tt;
  authenticate = λ client_id username password. (accepted, tt);
  authorize_publish = λ ctx topic. true;
  authorize_subscribe = λ ctx filter. true;
  authorize_receive = λ ctx topic. true;
}

pub data EventKind : Type 0 where
  connection_opened connection_closed connect_refused protocol_violation : EventKind
  transport_send_failed connect_timeout keepalive_timeout idle_timeout : EventKind
  session_created session_resumed session_taken_over session_expired session_evicted : EventKind
  publish_denied subscribe_denied receive_denied : EventKind
  retained_store_failed retained_stale_purged delivery_dropped inbound_qos2_evicted : EventKind

-- `none` for the connection is `no_conn`.
pub record Event : Type 0 where
  pub kind : EventKind
  pub ci : Option ℕ
  pub client_id : Bytes
  pub topic : Bytes
  pub err : Err
  pub connack : ConnackCode
  pub qos : QoS

abbrev pub new_event : EventKind → Event
new_event kind = record {
  kind = kind;
  ci = none;
  client_id = [];
  topic = [];
  err = Err.ok;
  connack = accepted;
  qos = at_most_once;
}

abbrev pub no_session : ℕ
no_session = 0xffff

pub record Conn : Type 0 where
  pub parser : FrameParser
  pub deadline_ms : ℕ
  pub session : ℕ
  pub keepalive_s : ℕ
  pub active : Bool
  pub dead : Bool
  pub notify_transport : Bool

abbrev pub new_conn : Conn
new_conn = record {
  parser = new_parser;
  deadline_ms = 0;
  session = no_session;
  keepalive_s = 0;
  active = false;
  dead = false;
  notify_transport = true;
}

-- `Conn::reset`
abbrev pub reset_conn : Conn → Conn
reset_conn c = record new_conn { parser = reset c.parser }

-- `events` is what the observer was told, in order. `hung` is set where a search for an identifier does not
-- end, after which the code does nothing more; the code keeps neither.
pub record Broker (T A : Type 0) : Type 0 where
  pub conns : List Conn
  pub sessions : Pool (Session A)
  pub retained : Pool Entry
  pub now_ms : ℕ
  pub disconnect_order : ℕ
  pub auto_id_counter : ℕ
  pub tr : T
  pub events : List Event
  pub hung : Bool

module _ {T A : Type 0} where
  unfoldable pub new_broker : Env T A → T → Broker T A
  unfolding empty_pool
  new_broker env tr = record {
    conns = replicate env.max_connections new_conn;
    sessions = empty_pool env.max_sessions;
    retained = empty_pool env.max_retained;
    now_ms = 0;
    disconnect_order = 0;
    auto_id_counter = 0;
    tr = tr;
    events = [];
    hung = false;
  }

  abbrev pub hang : Broker T A → Broker T A
  hang b = record b { hung = true }

  -- `conns_[ci]`; each caller has tested the index.
  unfoldable pub conn_at : ℕ → Broker T A → Conn
  conn_at ci b = elim (get_elem? b.conns ci) [ none ↦ new_conn | some c ↦ c ]

  -- A write through a reference to a connection, and to a live session.
  unfoldable pub modify_conn : ℕ → (Conn → Conn) → Broker T A → Broker T A
  modify_conn ci f b = record b { conns = set b.conns ci (f (conn_at ci b)) }

  unfoldable pub put_session : ℕ → Session A → Broker T A → Broker T A
  put_session si s b = record b { sessions = update si s b.sessions }

  abbrev pub session_at : ℕ → Broker T A → Option (Session A)
  session_at si b = at si b.sessions

  unfoldable pub modify_session : ℕ → (Session A → Session A) → Broker T A → Broker T A
  modify_session si f b = elim (session_at si b) [ none ↦ b | some s ↦ put_session si (f s) b ]

  -- `session_of`: the session of a connection.
  unfoldable pub session_of : Conn → Broker T A → Option (Session A)
  session_of c b = if c.session == no_session then none else session_at c.session b

-- The framed size of the widest packet that the broker builds.
abbrev pub out_size : Traits → ℕ
out_size t =
    let stored_body_max = 2 + t.max_topic_len + 2 + t.max_payload_len in
    packet_overhead
    + (if ltb stored_body_max t.max_packet_size then t.max_packet_size else stored_body_max)

abbrev pub retained_limits : Traits → Limits
retained_limits t = record { max_topic_len = t.max_topic_len; max_payload_len = t.max_payload_len }

abbrev pub is_connected {ℓ} : {A : Type ℓ} → Session A → Bool
is_connected s = not (s.conn == no_conn)
