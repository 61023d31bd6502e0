-- ===== src/Lib.antt =====
-- A verification library for the VoiceVerse server, `apps/api`: the parts of it that decide something
-- on their own, with what makes them correct.
--
-- The server takes a source video in parts (media ingest), has it scanned for malware (scan worker),
-- hears what is said and by whom (speech analysis), and cuts the dialogue into scenes for translation
-- (localization). Work is handed over by rows of an outbox, which a relay publishes to the queues.
--
-- - Timeline: `apps/api/src/modules/speech-analysis/application/timeline-materializer.service.ts`.
--   Types are the records, Compare the comparators, Check is `assertInput`, Overlap the cursor over
--   merged overlap intervals, Assign the cursor that gives a unit its speaker turn, Group
--   `groupAssignedUnits`, Statistics the canonical order of the clusters, and Materialize `materialize`.
--   The children of Assign compare the cursor with a search through all turns (Retire, Sweep, Refines)
--   and describe that search (Best, Nearest, Chosen); those of Materialize follow the loop.
-- - Scenes: `apps/api/src/modules/localization/application/localization-partitioner.ts`.
-- - Ingest: `apps/api/src/modules/media-ingest/application/media-ingest.service.ts`. Types are the rows
--   and errors, Patterns the regular expressions, Checks the `assert…` methods and `normalizeUpload`,
--   Tables what is read; Create, Complete and Access are the operations, as functions from the tables to
--   the tables and an answer. A request is not atomic: what other requests write between its reads and
--   its transactions is an argument (`meanwhile`, `before_persist`, `before_settle`), and so are the ids
--   that it draws and the answers of the object storage.
-- - Scan: `apps/api/src/modules/workers/application/media-scan-worker.service.ts`. Rows are the attempts
--   with the `where` and `data` of each update, Job is `processJob` and the heartbeat, Recovery
--   `recoverExpiredAttempts`.
-- - Outbox: `apps/api/src/modules/workers/application/outbox-relay.service.ts`.
-- - Localization: `apps/api/src/modules/localization/application/localization.service.ts`, with
--   `localization-values.ts` beside it in Values and Json. Types are the tables: a scene, a dialogue, a
--   translation or a glossary entry is a `Resource`, a row that holds its revisions and its selection,
--   which in the database are tables with composite foreign keys to it. Versions are the steps they have
--   in common (next number, expected revision, compare-and-set), Access the checks, Scene, Source,
--   Translation, Review and Glossary the edits and selections, Track the creation of a track with the
--   scenes of its workspace, History the lists of revisions and their cursors, Generation the requests
--   for a translation, Listing the lists of tracks and scenes, Requests any sequence of writes. Sound,
--   Settled, Keyed and Writes follow review state and source through it, Versioned the numbers and
--   selections, Stale and Generation/Again a second request after the first, Glossary/Limit the size of
--   a glossary. A transaction is serializable and so one function from the tables to the tables; a
--   failure of the database at its end is the argument `fault`, and what other requests write between
--   two attempts is an argument of each attempt.
-- - ReadBudget: `apps/api/src/modules/speech-analysis/infrastructure/
--   speech-manifest-read-budget.service.ts`.
-- - Uuid: `apps/api/src/shared/uuid.ts`.
-- - Common: Boolean tests, lists over native numbers, results with a thrown error, `toSorted`, `Map`,
--   and what the code uses of strings.
--
-- Names are those of the source in this library's spelling: `groupAssignedUnits` is
-- `group_assigned_units`. Where a method is long its parts are functions of their own, in the order of
-- its lines. Numbers are natural: times, sizes and counts are never negative in the tables, and a
-- difference that may be negative is written as a sum or as what the source does with it. Sizes and times
-- stay below 2 ^ 53, where the source's numbers are exact. A sort is stable insertion, whose result the
-- laws of the comparator determine. All loops are structural recursions, so no fuel is needed, except in
-- the decimal text of a number, where one round for each unit of the number is enough, as each divides it
-- by ten, and in the reader of a history, which asks for one page more than there are revisions.
--
-- Arguments stand for what is not code of the repository: `localeCompare` (`locale_compare`), NFC
-- normalization (`nfc`), `toLowerCase`, SHA-256 (`sha256`), the quoting of a JSON text (`quote`), JSON in
-- base64url (`codec`), random ids, the clock, and the answers of the object storage, the malware scanner
-- and the queue. Logging, the texts of exceptions and `toISOString` are left out. Not modelled are the
-- translation worker, the speech workflow around the timeline, media processing, identity, projects, the
-- HTTP and storage adapters, the web application and the Python services.
pub mod Common
pub mod Ingest
pub mod Localization
pub mod Outbox
pub mod ReadBudget
pub mod Scan
pub mod Scenes
pub mod Timeline
pub mod Uuid
