-- ===== src/Daemon/System/Stopping.antt =====
-- crates/daemon/src/main.rs and server.rs: a shutdown, and the connections that there are.
use fake_notify.Base.{true, nat_eq}
use fake_notify.Daemon.System.{System, Task}

-- A task that has been sent the shutdown.
abbrev pub told : Task → Task
told task = record task { signalled = true }
