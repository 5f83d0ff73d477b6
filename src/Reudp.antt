-- ===== src/Reudp.antt =====
-- internal/reudp: reliable datagrams over UDP.
pub mod Packet
pub mod Congestion
pub mod Endpoint
pub mod Receive
pub mod Send
pub mod Link
pub mod Address
