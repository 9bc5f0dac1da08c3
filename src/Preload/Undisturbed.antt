-- ===== src/Preload/Undisturbed.antt =====
-- crates/preload/src/lib.rs against crates/daemon/src/server.rs: a request of the library while no event comes
-- in between.
use fake_notify.Base.{nat_eq}
use fake_notify.Daemon.State.{Client}
use fake_notify.Daemon.System.{System}
