-- ===== src/Localization.antt =====
-- `apps/api/src/modules/localization/application/localization.service.ts`: tracks, scenes and dialogues
-- of a project's localization, with the revisions that editors write and the one that is active.
pub mod Types
pub mod Values
pub mod Versions
pub mod Access
pub mod Scene
pub mod Source
pub mod Translation
pub mod Glossary
pub mod Review
pub mod Track
pub mod Keyed
pub mod Settled
pub mod Writes
pub mod Sound
pub mod Requests
pub mod History
pub mod Versioned
pub mod Json
pub mod Generation
pub mod Listing
pub mod Stale
mod Tests
