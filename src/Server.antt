-- ===== src/Server.antt =====
-- src/server.rs: the control state, the shared state, the two output pumps and the supervision loop.
pub mod Core
pub mod Shared
pub mod Pump
pub mod Supervise
pub mod Threads
pub mod Setup
pub mod Utc
pub mod System
