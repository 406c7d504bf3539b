-- ===== src/Db/Rows.antt =====
-- One record for each table that the modelled services touch, with the columns that they read or
-- write. Identifiers, references and keys are texts; instants are milliseconds since the epoch;
-- amounts are signed. JSON columns hold the fields that the code reads back.
mod Transfers
mod Accounts
mod Chats
mod Controls
mod People
mod Tables
pub use Transfers.*
pub use Accounts.*
pub use Chats.*
pub use Controls.*
pub use People.*
pub use Tables.*
