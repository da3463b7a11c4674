-- ===== src/Connect.antt =====
-- internal/connect: the connection to Home Assistant.
pub mod Backoff
pub mod Message
pub mod Options
pub mod Client
pub mod Reconnect
