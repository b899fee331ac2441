-- ===== src/Relay.antt =====
-- The relay: relay/inbound/grpc.rs, relay/core.rs, relay/outbound/grpc.rs, relay/outbound/tcp.rs and
-- relay/activity.rs, from the connection of a client to the connection of the upstream.
pub mod Inbound
pub mod Fast
pub mod Core
pub mod Tunnel
pub mod Outbound
pub mod Wait
pub mod Activity
mod Tests
