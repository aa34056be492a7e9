-- ===== src/Tests.antt =====
-- The theorems at concrete inputs.
mod Topics
mod Codec
mod Containers
mod Policy
mod Store
mod Broker
mod Transports
