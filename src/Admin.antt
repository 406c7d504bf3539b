-- ===== src/Admin.antt =====
-- zongo/apps/admin/src/admin.service.ts.
pub mod Actors
pub mod Controls
pub mod Handling
pub mod Policies
pub mod Commands
pub mod Guards
pub mod Switches
pub mod Halts
pub mod Logins
pub mod Sessions
