-- ===== src/Relay.antt =====
-- cmd/relay: the relay that joins agents and clients.
pub mod Hub
pub mod Bind
pub mod Udp
pub mod Serve
