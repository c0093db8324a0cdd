-- ===== src/Daemon.antt =====
-- crates/fabricd/src/main.rs: the daemon around its sessions.
pub mod Drivers
pub mod Recorded
pub mod Boot
pub mod Run
pub mod Lifetime
pub mod Shutdown
