-- ===== src/Tests.antt =====
-- Samples, and the theorems at them.
pub mod Samples
mod StateTests
mod WatcherTests
mod ServerTests
mod EventTests
mod PreloadTests
mod CommandTests
mod SystemTests
mod LogTests
mod RequestTests
mod OvertakenTests
mod ManagerTests
