-- ===== src/Node.antt =====
-- How relays find each other, and how an agent finds a relay.
pub mod Url
pub mod Store
pub mod Crawl
pub mod Select
pub mod Load
pub mod Registry
