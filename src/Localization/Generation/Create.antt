-- ===== src/Localization/Generation/Create.antt =====
-- `createGeneration` and `getGeneration` of the localization service. An attempt is given what other
-- requests wrote before it, the error of its commit, if it fails, and what was written before the
-- failure is looked into.
use voice_verse_ai.Common.{
  ℕ, zero, suc, String, Bool, not, ◌&&◌, if◌then◌else◌, Option, none, some, List, [], ◌∷◌, ◌++◌,
  str_eq, Result, ok, err, ◌>>=◌, ◌>>◌, throw_if,
}
use voice_verse_ai.Common.Text.{join}
use voice_verse_ai.Ingest.Types.{AccessContext}
use voice_verse_ai.Ingest.Patterns.{matches_idempotency}
use voice_verse_ai.Ingest.Tables.{find}
use voice_verse_ai.Ingest.Create.{is_some}
use voice_verse_ai.Localization.Types.{
  Scope, same_scope, LocalizationTrack, LocalizationWorkspace, Store, LocalizationError,
  scene_not_found, invalid_idempotency_key, generation_mismatch, translation_disabled,
  generation_not_found, request_changed, unique_violation, database_failure,
}
use voice_verse_ai.Localization.Values.{deterministic_localization_uuid}
use voice_verse_ai.Localization.Versions.{is_owned, selected_revision, require_selection, require}
use voice_verse_ai.Localization.Access.{
  assert_can_edit, assert_uuid, owned_track, scope_of, audit_entry,
}
use voice_verse_ai.Localization.Track.{Catalog}
use voice_verse_ai.Localization.Track.Create.{
  language_row, analysis_row, retry, look_up, give_up, recourse_of,
}
use voice_verse_ai.Localization.Json.{CanonicalJson, canonical_json_hash}
use voice_verse_ai.Localization.Generation.{Speaker, TranslationConfig, sources_of, terms_of}
use voice_verse_ai.Localization.Generation.Snapshots.{
  dialogue_snapshots, configuration_snapshot, input_snapshot, context_snapshot,
  assert_snapshot_size,
}

pub data TranslationGenerationStatus : Type 0 where
  generation_queued generation_running : TranslationGenerationStatus
  generation_succeeded generation_failed : TranslationGenerationStatus

-- The columns that `create` writes; the counters and times of the execution have their defaults.
pub record TranslationGeneration : Type 0 where
  pub id : String
  pub scope : Scope
  pub track_id : String
  pub scene_id : String
  pub idempotency_key : String
  pub status : TranslationGenerationStatus
  pub configuration_snapshot : CanonicalJson
  pub configuration_hash : String
  pub context_snapshot : CanonicalJson
  pub context_snapshot_hash : String
  pub input_snapshot : CanonicalJson
  pub input_revision_hash : String
  pub model_id : String
  pub model_revision : String
  pub provider_name : String
  pub runtime_version : String
  pub prompt_version : String
  pub created_by_user_id : String
  pub created_at : ℕ

-- The event for the translation queue; its payload is the generation's id.
pub record TranslationEvent : Type 0 where
  pub id : String
  pub aggregate_id : String
  pub deduplication_key : String
  pub organization_id : String

-- The workspace's tables, which a request for a generation reads, and those that it writes.
pub record GenerationStore : Type 0 where
  pub store : Store
  pub generations : List TranslationGeneration
  pub outbox : List TranslationEvent

pub record GenerationEnv : Type 0 where
  pub sha256 : String → List ℕ
  pub quote : String → String
  pub now : ℕ
  pub config : TranslationConfig
  pub catalog : Catalog
  pub speakers : List Speaker

-- `toGenerationResponse`, of the columns above.
pub record GenerationResponse : Type 0 where
  pub id : String
  pub scene_id : String
  pub track_id : String
  pub status : TranslationGenerationStatus
  pub input_revision_hash : String
  pub model_id : String
  pub model_revision : String
  pub provider : String
  pub runtime_version : String
  pub prompt_version : String
  pub created_at : ℕ

unfoldable pub to_generation_response : TranslationGeneration → GenerationResponse
to_generation_response generation = record {
  id = generation.id;
  scene_id = generation.scene_id;
  track_id = generation.track_id;
  status = generation.status;
  input_revision_hash = generation.input_revision_hash;
  model_id = generation.model_id;
  model_revision = generation.model_revision;
  provider = generation.provider_name;
  runtime_version = generation.runtime_version;
  prompt_version = generation.prompt_version;
  created_at = generation.created_at;
}

-- `trackId_idempotencyKey`
abbrev pub has_generation_key : String → String → TranslationGeneration → Bool
has_generation_key track_id key generation =
    str_eq generation.track_id track_id && str_eq generation.idempotency_key key

abbrev pub has_generation_id : String → TranslationGeneration → Bool
has_generation_id id generation = str_eq generation.id id

unfoldable pub assert_generation_request_matches :
    String → String → Result LocalizationError (Unit {0})
assert_generation_request_matches existing_scene_id requested_scene_id =
    throw_if (not (str_eq existing_scene_id requested_scene_id)) generation_mismatch

-- The answer from a generation that has the key.
unfoldable pub replay_generation :
    String → TranslationGeneration → Result LocalizationError GenerationResponse
replay_generation scene_id generation = do
  assert_generation_request_matches generation.scene_id scene_id
  ok (to_generation_response generation)

abbrev pub localization_translation_event : String
localization_translation_event = "localization.translation.requested"

unfoldable pub generation_id_of : GenerationEnv → String → String → String
generation_id_of env track_id key =
    deterministic_localization_uuid env.sha256 (join ("generation:" ∷ track_id ∷ ":" ∷ key ∷ []))

unfoldable pub event_of : GenerationEnv → AccessContext → String → TranslationEvent
event_of env context generation_id = record {
  id =
      deterministic_localization_uuid env.sha256
        (join ("outbox:" ∷ localization_translation_event ∷ ":" ∷ generation_id ∷ []));
  aggregate_id = generation_id;
  deduplication_key = join (localization_translation_event ∷ ":" ∷ generation_id ∷ []);
  organization_id = context.organization_id;
}

unfoldable pub new_generation :
    GenerationEnv
    → AccessContext
    → Scope
    → String
    → String
    → String
    → CanonicalJson
    → CanonicalJson
    → TranslationGeneration
new_generation env context scope track_id scene_id key input scene_context = record {
  id = generation_id_of env track_id key;
  scope = scope;
  track_id = track_id;
  scene_id = scene_id;
  idempotency_key = key;
  status = generation_queued;
  configuration_snapshot = configuration_snapshot env.config;
  configuration_hash = canonical_json_hash env.sha256 env.quote (configuration_snapshot env.config);
  context_snapshot = scene_context;
  context_snapshot_hash = canonical_json_hash env.sha256 env.quote scene_context;
  input_snapshot = input;
  input_revision_hash = canonical_json_hash env.sha256 env.quote input;
  model_id = env.config.model_id;
  model_revision = env.config.model_revision;
  provider_name = env.config.provider;
  runtime_version = env.config.runtime_version;
  prompt_version = env.config.prompt_version;
  created_by_user_id = context.user_id;
  created_at = env.now;
}

-- The snapshots of the scene's input and context.
unfoldable pub snapshots_of :
    GenerationEnv
    → Scope
    → LocalizationTrack
    → String
    → Store
    → Result LocalizationError (CanonicalJson × CanonicalJson)
snapshots_of env scope track scene_id store = do
  scene ← require_selection scene_not_found (find (is_owned scene_id scope) store.scenes)
  active ← selected_revision scene.0.revisions scene.1
  sources ← sources_of scene_id store
  terms ← terms_of scope track.id store
  workspace ←
      require database_failure (
        find (λ (w : LocalizationWorkspace). str_eq w.id track.scope.workspace_id) store.workspaces)
  analysis ← analysis_row workspace.speech_analysis_id env.catalog
  source ← language_row analysis.source_language_id env.catalog
  target ← language_row track.target_language_id env.catalog
  dialogues ← dialogue_snapshots env.speakers track.id store 0 sources
  ok (input_snapshot dialogues terms source.bcp47_tag target.bcp47_tag, context_snapshot active)

-- The rows of the transaction; the event's key and the row's id are unique.
unfoldable pub insert_generation :
    GenerationEnv
    → AccessContext
    → TranslationGeneration
    → GenerationStore
    → Result LocalizationError (GenerationStore × GenerationResponse)
insert_generation env context generation tables =
    throw_if (is_some (find (has_generation_id generation.id) tables.generations)) unique_violation
    >> ok (
      record tables {
        generations = tables.generations ++ generation ∷ [];
        outbox = tables.outbox ++ event_of env context generation.id ∷ [];
        store = record tables.store {
          audit =
              tables.store.audit
              ++ audit_entry context "localization.translation.generation.requested"
                  "translation_generation" generation.id
                ∷ [];
        };
      },
      to_generation_response generation,
    )

unfoldable pub queue_generation :
    GenerationEnv
    → AccessContext
    → String
    → String
    → String
    → String
    → GenerationStore
    → Result LocalizationError (GenerationStore × GenerationResponse)
queue_generation env context project_id track_id key scene_id tables = do
  track ← owned_track context project_id track_id tables.store
  snapshots ← snapshots_of env (scope_of context project_id track) track scene_id tables.store
  assert_snapshot_size env.quote 60000 (configuration_snapshot env.config)
  assert_snapshot_size env.quote 1000000 snapshots.0
  assert_snapshot_size env.quote 250000 snapshots.1
  insert_generation env context
      (new_generation env context (scope_of context project_id track) track.id scene_id key
        snapshots.0 snapshots.1)
      tables

unfoldable pub create_generation_transaction :
    GenerationEnv
    → AccessContext
    → String
    → String
    → String
    → String
    → GenerationStore
    → Result LocalizationError (GenerationStore × GenerationResponse)
create_generation_transaction env context project_id track_id key scene_id tables =
    elim (find (has_generation_key track_id key) tables.generations) [
      | some existing ↦ replay_generation scene_id existing >>= λ answer. ok (tables, answer)
      | none ↦ queue_generation env context project_id track_id key scene_id tables
    ]

-- What surrounds an attempt.
pub record GenerationAttempt : Type 0 where
  pub meanwhile : GenerationStore → GenerationStore
  pub fault : Option LocalizationError
  pub before_lookup : GenerationStore → GenerationStore

-- The transaction with its commit: nothing of a failed one stays.
unfoldable pub run_generation_attempt {ℓ} :
    {A : Type ℓ}
    → Option LocalizationError
    → Result LocalizationError A
    → Result LocalizationError A
run_generation_attempt fault (err e) = err e
run_generation_attempt none (ok done) = ok done
run_generation_attempt (some e) (ok done) = err e

-- The attempts, numbered by those that are left after them.
unfoldable pub generation_attempts :
    GenerationEnv
    → AccessContext
    → String
    → String
    → String
    → String
    → (ℕ → GenerationAttempt)
    → ℕ
    → GenerationStore
    → GenerationStore × Result LocalizationError GenerationResponse
generation_attempts env context project_id track_id key scene_id attempts zero tables =
    (tables, err request_changed)
generation_attempts env context project_id track_id key scene_id attempts (suc left) tables =
    let before = (attempts left).meanwhile tables in
    let after = (attempts left).before_lookup before in
    elim (run_generation_attempt (attempts left).fault
      (create_generation_transaction env context project_id track_id key scene_id before)) [
        | ok done ↦ (done.0, ok done.1)
        | err e ↦ elim (recourse_of e left) [
          | retry ↦
              generation_attempts env context project_id track_id key scene_id attempts left before
          | give_up ↦ (before, err e)
          | look_up ↦ elim (find (has_generation_key track_id key) after.generations) [
            | some winner ↦ (after, replay_generation scene_id winner)
            | none ↦ elim left [
              | zero ↦ (after, err e)
              | suc others ↦
                  generation_attempts env context project_id track_id key scene_id attempts left
                    after
            ]
          ]
        ]
      ]

-- The request once its track is found.
unfoldable pub create_generation_for :
    GenerationEnv
    → AccessContext
    → String
    → String
    → String
    → String
    → (ℕ → GenerationAttempt)
    → GenerationStore
    → GenerationStore × Result LocalizationError GenerationResponse
create_generation_for env context project_id track_id key scene_id attempts tables =
    elim (find (has_generation_key track_id key) tables.generations) [
      | some existing ↦ (tables, replay_generation scene_id existing)
      | none ↦
          if env.config.enabled
          then generation_attempts env context project_id track_id key scene_id attempts 3 tables
          else (tables, err translation_disabled)
    ]

unfoldable pub generation_checked {ℓ} :
    {C : Type ℓ}
    → GenerationStore
    → Result LocalizationError C
    → (C → GenerationStore × Result LocalizationError GenerationResponse)
    → GenerationStore × Result LocalizationError GenerationResponse
generation_checked tables (err e) next = (tables, err e)
generation_checked tables (ok c) next = next c

unfoldable pub create_generation :
    GenerationEnv
    → AccessContext
    → String
    → String
    → String
    → String
    → (ℕ → GenerationAttempt)
    → GenerationStore
    → GenerationStore × Result LocalizationError GenerationResponse
create_generation env context project_id track_id key scene_id attempts tables =
    generation_checked tables
      (assert_can_edit context
        >> assert_uuid scene_id "scene"
        >> throw_if (not (matches_idempotency key)) invalid_idempotency_key
        >> owned_track context project_id track_id tables.store)
      λ track. create_generation_for env context project_id track.id key scene_id attempts tables

unfoldable pub get_generation :
    AccessContext
    → String
    → String
    → String
    → GenerationStore
    → Result LocalizationError GenerationResponse
get_generation context project_id track_id generation_id tables = do
  assert_uuid generation_id "generation"
  track ← owned_track context project_id track_id tables.store
  generation ← require generation_not_found (
      find
        (λ (g : TranslationGeneration).
          str_eq g.id generation_id
          && same_scope g.scope (scope_of context project_id track)
          && str_eq g.track_id track_id)
        tables.generations)
  ok (to_generation_response generation)
