-- ===== src/Scan.antt =====
-- The malware scan worker, `apps/api/src/modules/workers/application/media-scan-worker.service.ts`:
-- its rows, and the updates that it makes. Times are milliseconds.
pub mod Rows
pub mod Job
pub mod Recovery
pub mod Leases
pub mod Kept
pub mod Owner
pub mod Found
pub mod Prepared
mod Tests
