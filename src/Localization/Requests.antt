-- ===== src/Localization/Requests.antt =====
-- The requests that write a workspace, one after another: each runs in a serializable transaction, so
-- their effects come in some order. An attempt of `createTrack` is a transaction of its own.
use mathlib.Core.List.{foldl}
use voice_verse_ai.Common.{String, Option, List, Result, ok, err}
use voice_verse_ai.Ingest.Types.{AccessContext}
use voice_verse_ai.Localization.Types.{Store, LocalizationError}
use voice_verse_ai.Localization.Access.{EditEnv, SelectRevision}
use voice_verse_ai.Localization.Scene.{UpdateScene, update_scene, select_scene_revision}
use voice_verse_ai.Localization.Source.{
  UpdateSource, update_source_dialogue, select_source_revision,
}
use voice_verse_ai.Localization.Translation.Edit.{
  UpdateTranslation, update_translation, select_translation_revision,
}
use voice_verse_ai.Localization.Review.{UpdateState, update_translation_state}
use voice_verse_ai.Localization.Glossary.{GlossaryInput}
use voice_verse_ai.Localization.Glossary.Edit.{
  create_glossary_entry, UpdateGlossary, update_glossary_entry, select_glossary_revision,
}
use voice_verse_ai.Localization.Track.{Catalog, CreateTrack}
use voice_verse_ai.Localization.Track.Bootstrap.{TrackEnv}
use voice_verse_ai.Localization.Track.Create.{create_track_transaction, run_attempt}

-- The id is that of the scene, dialogue or entry.
pub data Edit : Type 0 where
  scene_edit : UpdateScene → Edit
  scene_choice : SelectRevision → Edit
  source_edit : UpdateSource → Edit
  source_choice : SelectRevision → Edit
  translation_edit : (translation_id : String) → UpdateTranslation → Edit
  translation_choice : SelectRevision → Edit
  state_change : UpdateState → Edit
  term_creation : GlossaryInput → Edit
  term_edit : UpdateGlossary → Edit
  term_choice : SelectRevision → Edit

pub data Request : Type 0 where
  edit : EditEnv → AccessContext → (project_id track_id resource_id : String) → Edit → Request
  track_attempt :
      TrackEnv
      → AccessContext
      → (project_id : String) → CreateTrack
      → Catalog
      → (fault : Option LocalizationError) → Request

unfoldable pub run_edit : EditEnv → AccessContext → String → String → String → Edit → Store → Store
run_edit env context project track id (scene_edit input) store =
    (update_scene env context project track id input store).0
run_edit env context project track id (scene_choice input) store =
    (select_scene_revision env context project track id input store).0
run_edit env context project track id (source_edit input) store =
    (update_source_dialogue env context project track id input store).0
run_edit env context project track id (source_choice input) store =
    (select_source_revision env context project track id input store).0
run_edit env context project track id (translation_edit translation input) store =
    (update_translation env translation context project track id input store).0
run_edit env context project track id (translation_choice input) store =
    (select_translation_revision env context project track id input store).0
run_edit env context project track id (state_change input) store =
    (update_translation_state env context project track id input store).0
run_edit env context project track id (term_creation input) store =
    (create_glossary_entry env context project track input store).0
run_edit env context project track id (term_edit input) store =
    (update_glossary_entry env context project track id input store).0
run_edit env context project track id (term_choice input) store =
    (select_glossary_revision env context project track id input store).0

-- The tables after an attempt.
unfoldable pub after_attempt {ℓ} :
    {A : Type ℓ} → Store → Result LocalizationError (Store × A) → Store
after_attempt store (err e) = store
after_attempt store (ok done) = done.0

unfoldable pub run_request : Store → Request → Store
run_request store (edit env context project track id input) =
    run_edit env context project track id input store
run_request store (track_attempt env context project input catalog fault) =
    after_attempt store
      (run_attempt fault (create_track_transaction env context project input catalog store))

unfoldable pub run_requests : List Request → Store → Store
run_requests requests store = foldl run_request store requests
