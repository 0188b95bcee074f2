-- ===== src/Daemon.antt =====
-- The client's view of the daemon, client/gui/src/main/daemon.ts, and the notifications that
-- client/gui/src/main/main.ts makes of its messages.
pub mod Schema
pub mod Fakes
pub mod Methods
pub mod Calls
pub mod CallLaws
pub mod Streaming
pub mod Notices
pub mod Paths
mod Tests
