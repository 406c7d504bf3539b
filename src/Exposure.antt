-- ===== src/Exposure.antt =====
-- The pilot exposure monitor (zongo/apps/worker/src/pilot-exposure-monitor.service.ts).
pub mod Monitor
pub mod Pausing
