-- ===== src/Daemon.antt =====
-- crates/daemon/src: the daemon fakenotifyd.
pub mod State
pub mod Watcher
pub mod Server
pub mod Client
pub mod Config
pub mod Manager
pub mod Cli
pub mod Commands
pub mod Start
pub mod Boot
pub mod Listener
pub mod System
pub mod Main
