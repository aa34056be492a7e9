-- ===== src/Transports.antt =====
-- include/minimosq/transport.hpp and transports: what carries the bytes of the broker.
pub mod Count
pub mod Ring
pub mod Rounds
pub mod Kernel
pub mod Client
pub mod StreamServer
pub mod Pipe
pub mod Capacity
pub mod TlsAdapter
