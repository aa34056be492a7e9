-- ===== src/Protocol.antt =====
-- include/minimosq/protocol: the MQTT 3.1.1 wire format.
pub mod Constants
pub mod Utf8
pub mod Reader
pub mod Writer
pub mod Frame
pub mod Packets
