-- ===== src/Lib.antt =====
-- minimosq: a header-only MQTT 3.1.1 broker for small systems, without a heap and without exceptions.
--
-- Bytes come from a transport. The frame parser cuts them into packets, the packet codec reads the
-- fields of a packet through the reader and writes answers through the writer, the topic rules decide
-- which subscription a message meets, the policy decides what a client may do, and the pool and the
-- containers hold what the broker owns. The files model these parts:
--
--   Core/Span: include/minimosq/core/span.hpp and error.hpp. A view (data, len) is the list of its bytes.
--   Core/StaticVector: core/static_vector.hpp, fixed_string.hpp, fixed_buffer.hpp. A container is the list
--     of its live elements and the capacity is an argument; `none` stands for the refusal. Slots has the
--     vector as the code keeps it, an array with a size, and the loops over it.
--   Core/Pool: core/pool.hpp. The slots with their count; a pointer is a slot's index.
--   Protocol/Constants: protocol/constants.hpp. Codes, flags, limits.
--   Protocol/Utf8: protocol/utf8.hpp. The index is the suffix that is still to be read.
--   Protocol/Reader, Protocol/Writer: protocol/reader.hpp and writer.hpp. The cursor is the rest of
--     the input, the buffer is what was written; the sticky flag is a field.
--   Protocol/Frame: protocol/frame.hpp. The callback is a function on the caller's state that also
--     answers whether to go on. Frame/Bytewise is the specification, one byte at a time.
--   Protocol/Packets: protocol/packets.hpp. Parsers answer a packet or the error code.
--   Topic: include/minimosq/topic.hpp. Topic/Levels has the same decisions on lists of levels.
--   Broker/TableAcl: broker/table_acl.hpp. The tables of users and rules; the context is the role.
--   Broker/Retained: broker/retained.hpp. An entry stands in a pool slot; Retained/Slots sees the slots
--     as a map from topics to messages.
--   Broker/Session: broker/session.hpp. A pointer to an element is its index; the context of the policy
--     is a parameter.
--   Broker/State: broker/config.hpp, observer.hpp and the members of broker/broker.hpp. A pointer to a connection or
--     to a session is its index. The transport and the security policy are the record `Env`, the
--     observer is the list of the events that it was told.
--   Broker/Clock, Broker/Notify, Broker/Send, Broker/ClientId: deadlines, events, sends, assigned client ids.
--   Broker/Delivery, Broker/Routing: the outbound queue of a session; publishing, retaining and replay.
--   Broker/Teardown: the deferred close of connections, session expiry and eviction.
--   Broker/Connect, Broker/Subscribe, Broker/Acks: the packet handlers, guard by guard.
--   Broker/Entry: `on_packet` and the entry points. A handler gets the session that the dispatch found.
--   Broker/Stable: what an operation keeps, from the few ways in which the broker is written.
--   Broker/Links: the references between connections and sessions, and what each entry point does to them.
--   Broker/Healthy: the bounds on the queues and the table, on which the searches for identifiers rest.
--   Broker/Robust: what every entry point keeps, for a property that survives each way of writing.
--   Transports/Capacity: include/minimosq/transport.hpp. Transports/Client: its contract, and the broker as
--     one that keeps it.
--   Transports/Ring, Transports/Kernel: transports/posix/common.hpp, the ring and the system calls.
--     Kernel/Flush is the loop that the transports share.
--   Transports/StreamServer: transports/posix/stream_server.hpp; Pass is the event loop, Ledger the
--     invariant. Transports/Pipe: transports/posix/pipe.hpp, with the invariant in Streams. Count: their sums.
--   Transports/TlsAdapter: transports/tls_adapter.hpp. A buffer is the list of its bytes.
--   Prelude: lists, tests and masks shared by all. Tests: the theorems at concrete inputs.
--
-- Numbers are natural numbers, and a fixed-width integer keeps its wrap-around in the formula.
-- A subtraction is written where the code has made sure that it does not pass zero.
--
-- Loops on fuel. `feed` and `utf8_valid` run on the length of the input: every round takes a byte at
-- least. `topic_matches` and `topic_filter_covers` run on the length of the filter plus one: every
-- round takes a level off. `varint` runs on four rounds, as its argument is below 128 to the fourth.
-- `alloc_packet_id` runs on the number of pending messages plus one: a round that goes on has met a
-- message in flight with its identifier. Enough fuel is shown where the loop is compared with a
-- definition that has none, and no theorem assumes that a loop ended. `flush_dead` runs on one sweep
-- more than there are connections: a sweep that goes round again has closed one. `pump_session` and
-- `resume_session` run on the messages of the queue: a round passes or removes one. `generate_client_id`
-- runs on the session slots plus one: a round that goes on has met a session with its id. Where the
-- search for a packet identifier (65535 messages in flight) or for a client id (65536 of them in use)
-- does not end in the code, the model sets `hung`, and a theorem that says that a call returns says that
-- `hung` is not set.
-- `clear` of a vector runs on its size. The other loops are recursion on the list.
--
-- The loop of `flush` in the transports runs on the bytes of the ring and the signals that can still
-- interrupt a write: a round that goes on has written a byte or used up a signal. `run` runs on a number
-- of passes that is given, as it ends only when `stop` is called.
--
-- The system is a parameter of the transports: the record `Kernel` of its calls, with the laws of
-- `IsKernel` on `write`. So is what a transport drives, the record `Client` with the laws of `IsClient`:
-- the broker keeps them, and so does the driver of the TLS adapter over it, whose engine and raw transport
-- are parameters too. A transport notes what it did in `acts`, which the code does not keep.
--
-- The policy is a parameter without a state: one whose answers change from call to call is not covered.
-- Where the fuel of `feed` would run out, the broker as the client of a transport sets `hung` too, which
-- the code has no path for; the fuel does not run out on a valid parser.
--
-- Not modelled: the making of listening sockets (tcp.hpp, unix_socket.hpp), `stop` called by a signal
-- handler in the middle of a pass, the observer's own code, version numbers, the examples and the tools.
pub mod Prelude
pub mod Core
pub mod Protocol
pub mod Topic
pub mod Broker
pub mod Transports
mod Tests
