-- ===== src/Reudp/Receive/Delivery.antt =====
-- Reliable payloads reach the channel in the order of their numbers, each once, in whatever order
-- the datagrams arrive.
pub mod Loop
pub mod Runs
pub mod History
