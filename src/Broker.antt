-- ===== src/Broker.antt =====
-- include/minimosq/broker: the parts of the broker.
pub mod TableAcl
pub mod Session
pub mod Retained
pub mod State
pub mod Clock
pub mod Notify
pub mod Send
pub mod ClientId
pub mod Delivery
pub mod Routing
pub mod Teardown
pub mod Connect
pub mod Subscribe
pub mod Acks
pub mod Entry
pub mod Stable
pub mod Links
pub mod Robust
pub mod Healthy
