-- ===== src/Db.antt =====
-- The database that the services share (zongo/prisma/schema.prisma): its rows, its tables, and the
-- calls that read and write them.
pub mod Rows
pub mod Tags
pub mod Monad
pub mod Checks
pub mod Invariant
pub mod Inversion
pub mod Env
