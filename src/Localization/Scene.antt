-- ===== src/Localization/Scene.antt =====
-- `updateScene` and `selectSceneRevision` of the localization service. An edit is a function from the
-- tables to the scenes that it writes, its audit entry and its answer; `commit` ends its transaction.
use voice_verse_ai.Common.{
  ℕ, ◌+◌, ◌/◌, String, Bool, true, false, ◌&&◌, Option, none, some, List, text_eq, str_eq, Result,
  ok, err, ◌>>=◌, ◌>>◌, throw_if,
}
use voice_verse_ai.Ingest.Types.{AccessContext}
use voice_verse_ai.Ingest.Tables.{find}
use voice_verse_ai.Localization.Types.{
  Scope, Revision, SceneContent, LocalizationScene, LocalizationAudit, Store, LocalizationError,
  scene_not_found, scene_revision_not_found, no_scene_field, edit_without_change, already_active,
}
use voice_verse_ai.Localization.Values.{normalize_optional_editorial_text}
use voice_verse_ai.Localization.Versions.{
  is_owned, has_revision_id, selected_revision, next_revision_number, assert_expected_revision,
  reselect, cas_selection, add_revision, require_selection, require,
}
use voice_verse_ai.Localization.Access.{
  EditEnv, assert_can_edit, assert_uuid, owned_track, audit_entry, rethrow_write_conflict, commit,
  checked, scope_of, new_revision, SelectRevision,
}

-- A field that is absent is none; one that is null is `some none`.
pub record UpdateScene : Type 0 where
  pub title : Option (Option String)
  pub narrative : Option (Option String)
  pub cultural_notes : Option (Option String)
  pub expected_revision : ℕ

pub record SceneRevisionResponse : Type 0 where
  pub id : String
  pub scene_id : String
  pub revision_number : ℕ
  pub selection_revision : Option ℕ
  pub title : Option String
  pub narrative : Option String
  pub cultural_notes : Option String
  pub start_ms : ℕ
  pub end_ms : ℕ
  pub created_at : ℕ
  pub created_by_user_id : String

-- `Math.round(Number(value) / 1_000)`
unfoldable pub microseconds_to_milliseconds : ℕ → ℕ
microseconds_to_milliseconds value = (value + 500) / 1000

unfoldable pub to_scene_revision_response :
    String → Revision SceneContent → Option ℕ → SceneRevisionResponse
to_scene_revision_response scene_id revision selection_revision = record {
  id = revision.id;
  scene_id = scene_id;
  revision_number = revision.revision_number;
  selection_revision = selection_revision;
  title = revision.content.title;
  narrative = revision.content.summary;
  cultural_notes = revision.content.cultural_context;
  start_ms = microseconds_to_milliseconds revision.content.start_time_us;
  end_ms = microseconds_to_milliseconds revision.content.end_time_us;
  created_at = revision.created_at;
  created_by_user_id = revision.created_by_user_id;
}

-- The field of the edit where it is present, the active revision's where it is not.
unfoldable pub edited_field :
    (String → String) → Option (Option String) → Option String → Option String
edited_field nfc none current = current
edited_field nfc (some value) current = normalize_optional_editorial_text nfc value

unfoldable pub is_absent {ℓ} : {A : Type ℓ} → Option A → Bool
is_absent none = true
is_absent (some a) = false

unfoldable pub has_no_field : UpdateScene → Bool
unfolding is_absent
has_no_field input =
    is_absent input.title && is_absent input.narrative && is_absent input.cultural_notes

unfoldable pub same_narrative : SceneContent → SceneContent → Bool
same_narrative a b =
    text_eq a.title b.title
    && text_eq a.summary b.summary
    && text_eq a.cultural_context b.cultural_context

-- The content of the next revision: its times are those of the active one.
unfoldable pub edited_scene : (String → String) → UpdateScene → SceneContent → SceneContent
unfolding edited_field
edited_scene nfc input current = record current {
  title = edited_field nfc input.title current.title;
  summary = edited_field nfc input.narrative current.summary;
  cultural_context = edited_field nfc input.cultural_notes current.cultural_context;
}

unfoldable pub cas_scene_selection :
    AccessContext
    → Scope
    → String
    → String
    → ℕ
    → List LocalizationScene
    → Result LocalizationError (List LocalizationScene)
cas_scene_selection context scope scene_id revision_id expected_revision scenes =
    cas_selection (is_owned scene_id scope) expected_revision
      (reselect context.user_id revision_id tt) scenes

abbrev pub SceneOutcome : Type 0
SceneOutcome =
    Result LocalizationError (List LocalizationScene × LocalizationAudit × SceneRevisionResponse)

unfoldable pub write_scene :
    EditEnv → AccessContext → Scope → String → ℕ → Revision SceneContent → Store → SceneOutcome
write_scene env context scope scene_id expected_revision revision store = do
  added ← add_revision scene_id revision store.scenes
  scenes ← cas_scene_selection context scope scene_id revision.id expected_revision added
  ok (
    scenes,
    audit_entry context "localization.scene.revision.created" "localization_scene" scene_id,
    to_scene_revision_response scene_id revision (some (expected_revision + 1)),
  )

unfoldable pub edit_scene :
    EditEnv → AccessContext → String → String → String → UpdateScene → Store → SceneOutcome
edit_scene env context project_id track_id scene_id input store = do
  track ← owned_track context project_id track_id store
  found ←
      require_selection scene_not_found
        (find (is_owned scene_id (scope_of context project_id track)) store.scenes)
  assert_expected_revision found.1.revision input.expected_revision
  current ← selected_revision found.0.revisions found.1
  throw_if (has_no_field input) no_scene_field
  throw_if (same_narrative (edited_scene env.nfc input current.content) current.content)
      edit_without_change
  write_scene env context (scope_of context project_id track) scene_id input.expected_revision
      (new_revision env context (next_revision_number found.0.revisions)
        (edited_scene env.nfc input current.content))
      store

-- `write` of the transactions on scenes.
unfoldable pub put_scenes : List LocalizationScene → Store → Store
put_scenes scenes store = record store { scenes = scenes }

unfoldable pub update_scene :
    EditEnv
    → AccessContext
    → String
    → String
    → String
    → UpdateScene
    → Store
    → Store × Result LocalizationError SceneRevisionResponse
update_scene env context project_id track_id scene_id input store =
    checked store (assert_can_edit context >> assert_uuid scene_id "scene") λ _.
      commit rethrow_write_conflict put_scenes env.fault store
        (edit_scene env context project_id track_id scene_id input store)

-- `findFirst` of a revision of the scene.
unfoldable pub scene_revision :
    String
    → String
    → Scope
    → List LocalizationScene
    → Result LocalizationError (Revision SceneContent)
scene_revision scene_id revision_id scope scenes = elim (find (is_owned scene_id scope) scenes) [
  | none ↦ err scene_revision_not_found
  | some scene ↦
      require scene_revision_not_found (find (has_revision_id revision_id) scene.revisions)
]

unfoldable pub choose_scene :
    AccessContext → String → String → String → SelectRevision → Store → SceneOutcome
choose_scene context project_id track_id scene_id input store = do
  track ← owned_track context project_id track_id store
  revision ←
      scene_revision scene_id input.revision_id (scope_of context project_id track) store.scenes
  found ←
      require_selection scene_not_found
        (find (is_owned scene_id (scope_of context project_id track)) store.scenes)
  assert_expected_revision found.1.revision input.expected_revision
  throw_if (str_eq found.1.selected_revision_id revision.id) already_active
  scenes ←
      cas_scene_selection context (scope_of context project_id track) scene_id revision.id
        input.expected_revision store.scenes
  ok (
    scenes,
    audit_entry context "localization.scene.selection.changed" "localization_scene" scene_id,
    to_scene_revision_response scene_id revision (some (input.expected_revision + 1)),
  )

unfoldable pub select_scene_revision :
    EditEnv
    → AccessContext
    → String
    → String
    → String
    → SelectRevision
    → Store
    → Store × Result LocalizationError SceneRevisionResponse
select_scene_revision env context project_id track_id scene_id input store =
    checked store
      (assert_can_edit context
        >> assert_uuid scene_id "scene"
        >> assert_uuid input.revision_id "scene revision")
      λ _.
        commit rethrow_write_conflict put_scenes env.fault store
          (choose_scene context project_id track_id scene_id input store)
