-- ===== src/Desktop.antt =====
-- internal/desktop: the agent's remote desktop.
pub mod Abr
