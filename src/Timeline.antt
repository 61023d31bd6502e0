-- ===== src/Timeline.antt =====
-- The timeline materializer, `apps/api/src/modules/speech-analysis/application/
-- timeline-materializer.service.ts`: its types, its comparators, and a child for each part.
pub mod Types
pub mod Compare
pub mod Check
pub mod Overlap
pub mod Assign
pub mod Group
pub mod Statistics
pub mod Materialize
mod Tests
