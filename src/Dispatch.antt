-- ===== src/Dispatch.antt =====
-- zongo/apps/worker/src/durable-job-dispatcher.service.ts.
pub mod Select
pub mod Sweep
pub mod Loop
pub mod Batches
pub mod Sweeps
pub mod Rounds
