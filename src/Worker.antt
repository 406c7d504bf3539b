-- ===== src/Worker.antt =====
-- zongo/apps/worker/src/worker-job.processor.ts.
pub mod Ports
pub mod Store
pub mod Sessions
pub mod Failure
pub mod Claim
pub mod Controls
pub mod Request
pub mod Recheck
pub mod Leg
pub mod Notify
pub mod Process
pub mod Retry
pub mod Callback
pub mod Frames
pub mod Exclusion
pub mod Callbacks
pub mod Pauses
pub mod Retries
pub mod Failures
pub mod Backoff
