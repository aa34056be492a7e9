-- ===== src/Protocol/Packets.antt =====
-- include/minimosq/protocol/packets.hpp: packet parsing and serialization.
pub mod Parse
pub mod TopicList
pub mod Build
pub mod Wire
pub mod RoundTrip
