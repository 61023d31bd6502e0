-- ===== src/Ingest.antt =====
-- Media ingest, `apps/api/src/modules/media-ingest/application/media-ingest.service.ts`: multipart
-- uploads of a source video, from their creation to the queued malware scan.
pub mod Types
pub mod Patterns
pub mod Checks
pub mod Tables
pub mod Create
pub mod Complete
pub mod Access
pub mod Sizes
pub mod Rows
pub mod Replay
pub mod Again
pub mod Refused
pub mod Owned
pub mod Closed
pub mod Completed
pub mod Once
mod Tests
