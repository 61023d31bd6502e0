-- ===== src/Localization/Generation/Tests.antt =====
-- A request for a generation that is sent twice.
use voice_verse_ai.Common.{ℕ, Bool, ◌≡◌, refl, String, true, false, none, some, [], ◌∷◌, Result, ok}
use voice_verse_ai.Localization.Types.{LocalizationScene, LocalizationWorkspace, LocalizationError}
use voice_verse_ai.Localization.Access.{assert_can_edit, owned_track}
use voice_verse_ai.Localization.Track.{Catalog, speech_analysis, succeeded}
use voice_verse_ai.Localization.Generation.Create.{
  GenerationStore, GenerationEnv, GenerationResponse, GenerationAttempt, create_generation,
  generation_queued,
}
use voice_verse_ai.Localization.Generation.Again.{create_generation-again}
use voice_verse_ai.Localization.Tests.{
  project_id, track_id, dialogue, scope, track, tables, context,
}
use voice_verse_ai.Localization.Generation.Create.{
  generation_checked, create_generation_for, generation_attempts, run_generation_attempt,
  create_generation_transaction, queue_generation, snapshots_of, insert_generation, new_generation,
  event_of, generation_id_of, to_generation_response,
}
use voice_verse_ai.Localization.Generation.{
  sources_of, scene_dialogues, in_sequence, active_source, some_without_source, is_too_long,
  with_sources, some_too_long, terms_of, active_entries, by_term, selected_entries,
}
use voice_verse_ai.Localization.Generation.Snapshots.{
  safe_microseconds, speaker_snapshot, selection_of, dialogue_snapshot, dialogue_snapshots,
  term_snapshot, configuration_snapshot, input_snapshot, context_snapshot, assert_snapshot_size,
}
use voice_verse_ai.Localization.Json.{
  stable_json, item_texts, field_texts, object_text, by_key, entry_text, joined,
  canonical_json_hash, or_null, fields_of, items_of,
}
use voice_verse_ai.Localization.Track.Create.{analysis_row, language_row, recourse_of}
use voice_verse_ai.Localization.Versions.{require, require_selection, is_owned, selected_revision}
use voice_verse_ai.Localization.Types.{same_scope}
use voice_verse_ai.Localization.Access.{assert_uuid, scope_of, audit_entry}
use voice_verse_ai.Localization.Values.{deterministic_localization_uuid, bytes_text, hex_text}
use voice_verse_ai.Localization.Glossary.{is_of_glossary}
use voice_verse_ai.Ingest.Checks.{is_viewer}
use voice_verse_ai.Ingest.Patterns.{matches_uuid, matches_idempotency}
use voice_verse_ai.Ingest.Tables.{find}
use voice_verse_ai.Ingest.Create.{is_some}
use voice_verse_ai.Common.Sort.{sort_by, insert_by, or_else}
use voice_verse_ai.Common.Take.{take}
use voice_verse_ai.Common.Text.{join, decimal}
use voice_verse_ai.Uuid.{byte_at}

abbrev scene_id : String
scene_id = "019f1a2b-3c4d-7e5f-8a6b-7c8d9e0f1a05"

abbrev scene : LocalizationScene
scene = record {
  id = scene_id;
  scope = scope;
  owner = record { ordinal = 0; created_by_user_id = "user" };
  revisions =
      record {
        id = "scene-1";
        revision_number = 1;
        created_by_user_id = "user";
        created_at = 0;
        content = record {
          start_time_us = 0;
          end_time_us = 1500000;
          title = none;
          summary = none;
          cultural_context = none;
        };
      }
      ∷ [];
  selection = some (record {
    revision = 1;
    selected_revision_id = "scene-1";
    updated_by_user_id = "user";
    state = tt;
  });
}

abbrev workspace : LocalizationWorkspace
workspace = record {
  id = "workspace";
  organization_id = "org";
  project_id = project_id;
  speech_analysis_id = "analysis";
  created_by_user_id = "user";
}

abbrev start : GenerationStore
start = record {
  store = record tables {
    workspaces = workspace ∷ [];
    scenes = scene ∷ [];
    dialogues = record dialogue { owner = record dialogue.owner { scene_id = scene_id } } ∷ [];
  };
  generations = [];
  outbox = [];
}

abbrev catalog : Catalog
catalog = record {
  jobs =
      record {
        id = "job";
        organization_id = "org";
        project_id = project_id;
        kind = speech_analysis;
        status = succeeded;
        analysis = some (record {
          id = "analysis";
          source_language_id = "en";
          dialogue_segments = none;
          project_selection = none;
        });
      }
      ∷ [];
  languages =
      record { id = "en"; bcp47_tag = "en"; english_name = "English" }
      ∷ record { id = "de"; bcp47_tag = "de"; english_name = "German" }
      ∷ [];
  target_languages = [];
}

-- Translation is switched off later.
abbrev generation_env : Bool → GenerationEnv
generation_env enabled = record {
  sha256 = λ s. [];
  quote = λ s. s;
  now = 7;
  config = record {
    enabled = enabled;
    model_id = "model";
    model_revision = "1";
    provider = "provider";
    runtime_version = "1";
    prompt_version = "1";
  };
  catalog = catalog;
  speakers = [];
}

abbrev attempts : ℕ → GenerationAttempt
attempts left = record { meanwhile = λ t. t; fault = none; before_lookup = λ t. t }

abbrev sent : GenerationStore × Result LocalizationError GenerationResponse
sent =
    create_generation (generation_env true) context project_id track_id "request-key" scene_id
      attempts start

abbrev answer : GenerationResponse
answer = record {
  id = "00000000-0000-5000-8000-000000000000";
  scene_id = scene_id;
  track_id = track_id;
  status = generation_queued;
  input_revision_hash = "";
  model_id = "model";
  model_revision = "1";
  provider = "provider";
  runtime_version = "1";
  prompt_version = "1";
  created_at = 7;
}

answered : sent ≡ (sent.0, ok answer)
unfolding create_generation assert_can_edit owned_track generation_checked create_generation_for
    generation_attempts run_generation_attempt create_generation_transaction queue_generation
    snapshots_of insert_generation new_generation event_of generation_id_of to_generation_response
    sources_of scene_dialogues in_sequence active_source some_without_source is_too_long
    with_sources some_too_long terms_of active_entries by_term selected_entries safe_microseconds
    speaker_snapshot selection_of dialogue_snapshot dialogue_snapshots term_snapshot
    configuration_snapshot input_snapshot context_snapshot assert_snapshot_size stable_json
    item_texts field_texts object_text by_key entry_text joined canonical_json_hash or_null
    fields_of items_of analysis_row language_row recourse_of require require_selection is_owned
    selected_revision same_scope assert_uuid scope_of audit_entry deterministic_localization_uuid
    bytes_text hex_text is_of_glossary is_viewer matches_uuid matches_idempotency find is_some
    sort_by insert_by or_else take join decimal byte_at
answered = refl

may_edit : assert_can_edit context ≡ ok tt
unfolding assert_can_edit is_viewer
may_edit = refl

still_owned : owned_track context project_id track_id (sent.0).store ≡ ok track
unfolding create_generation assert_can_edit owned_track generation_checked create_generation_for
    generation_attempts run_generation_attempt create_generation_transaction queue_generation
    snapshots_of insert_generation new_generation event_of generation_id_of to_generation_response
    sources_of scene_dialogues in_sequence active_source some_without_source is_too_long
    with_sources some_too_long terms_of active_entries by_term selected_entries safe_microseconds
    speaker_snapshot selection_of dialogue_snapshot dialogue_snapshots term_snapshot
    configuration_snapshot input_snapshot context_snapshot assert_snapshot_size stable_json
    item_texts field_texts object_text by_key entry_text joined canonical_json_hash or_null
    fields_of items_of analysis_row language_row recourse_of require require_selection is_owned
    selected_revision same_scope assert_uuid scope_of audit_entry deterministic_localization_uuid
    bytes_text hex_text is_of_glossary is_viewer matches_uuid matches_idempotency find is_some
    sort_by insert_by or_else take join decimal byte_at
still_owned = refl

create_generation-again_example :
    create_generation
      (generation_env false)
      context
      project_id
      track_id
      "request-key"
      scene_id
      attempts
      sent.0
    ≡ (sent.0, ok answer)
create_generation-again_example =
    create_generation-again (generation_env true) (generation_env false) context context project_id
      track_id "request-key" scene_id attempts attempts start sent.0 answer track answered may_edit
      still_owned
