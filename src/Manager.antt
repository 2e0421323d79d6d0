-- ===== src/Manager.antt =====
-- cmd/manager: the command line of the manager, and its start.
pub mod Options
pub mod Command
pub mod Validation
pub mod Starting
pub mod Main
pub mod Registering
pub mod Entry
