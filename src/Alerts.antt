-- ===== src/Alerts.antt =====
-- zongo/apps/worker/src/admin-alert-dispatcher.service.ts.
pub mod Outbox
pub mod Retries
