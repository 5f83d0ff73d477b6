-- ===== src/Agent/Session/Planes.antt =====
-- cmd/agent: whatever reaches an agent, its sessions keep to their planes.
pub mod Messages
pub mod Fair
pub mod Frames
pub mod Steps
