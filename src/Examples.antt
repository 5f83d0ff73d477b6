-- ===== src/Examples.antt =====
-- Runs of the theorems at concrete inputs.
pub mod Wire
pub mod Flow
pub mod Hubs
pub mod Datagrams
pub mod Desktop
pub mod Links
pub mod Nodes
pub mod Inputs
pub mod Agents
