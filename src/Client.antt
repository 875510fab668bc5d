-- ===== src/Client.antt =====
-- SOParte2/src/client.
pub mod Parser
pub mod Api
pub mod Main
pub mod Notifications
