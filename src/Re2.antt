-- ===== src/Re2.antt =====
-- internal/re2: the outer frames, the inner messages, and the routes of a device's channels.
pub mod Frame
pub mod Message
pub mod Video
pub mod Channel
