-- ===== src/Localization/Translation.antt =====
-- `updateTranslation` and `selectTranslationRevision` of the localization
-- service. The id of a translation's row is a digest of its track and dialogue, the argument
-- `translation_id` here.
use voice_verse_ai.Common.{
  ℕ, ◌+◌, String, Bool, true, false, not, ◌&&◌, ◌==◌, if◌then◌else◌, Option, none, some, List, [],
  ◌∷◌, ◌++◌, str_eq, Result, ok, err, ◌>>=◌, ◌>>◌, throw_if,
}
use voice_verse_ai.Ingest.Types.{AccessContext}
use voice_verse_ai.Ingest.Tables.{find, update}
use voice_verse_ai.Ingest.Create.{is_some}
use voice_verse_ai.Localization.Types.{
  Scope, same_scope, Revision, Selection, LocalizedDialogue, DialogueTranslation,
  TranslationContent, TranslationEditorState, draft, in_review, approved, LocalizationAudit, Store,
  LocalizationError, dialogue_not_found, source_not_found, translation_not_found,
  translation_revision_not_found, edit_without_change, already_active, invalid_transition,
  active_source_changed, unique_violation, database_failure,
}
use voice_verse_ai.Localization.Values.{normalize_required_editorial_text}
use voice_verse_ai.Localization.Versions.{
  has_revision_id, selected_revision, next_revision_number, assert_expected_revision, reselect,
  cas_selection, add_revision, require_selection, require,
}
use voice_verse_ai.Localization.Access.{
  EditEnv, assert_can_edit, assert_uuid, owned_track, audit_entry, rethrow_write_conflict, commit,
  checked, scope_of, new_revision, SelectRevision,
}
use voice_verse_ai.Localization.Source.{owned_dialogue}
pub mod Edit

pub record TranslationRevisionResponse : Type 0 where
  pub id : String
  pub translation_id : String
  pub dialogue_id : String
  pub revision_number : ℕ
  pub selection_revision : Option ℕ
  pub editor_state : TranslationEditorState
  pub source_revision_id : String
  pub target_text : String
  pub generation_id : Option String
  pub created_at : ℕ
  pub created_by_user_id : String

unfoldable pub to_translation_revision_response :
    DialogueTranslation
    → Revision TranslationContent
    → TranslationEditorState
    → Option ℕ
    → TranslationRevisionResponse
to_translation_revision_response translation revision editor_state selection_revision = record {
  id = revision.id;
  translation_id = translation.id;
  dialogue_id = translation.owner.localized_dialogue_id;
  revision_number = revision.revision_number;
  selection_revision = selection_revision;
  editor_state = editor_state;
  source_revision_id = revision.content.source_dialogue_revision_id;
  target_text = revision.content.translated_text;
  generation_id = revision.content.generation_id;
  created_at = revision.created_at;
  created_by_user_id = revision.created_by_user_id;
}

-- `trackId_localizedDialogueId`
abbrev pub is_of_track : String → String → DialogueTranslation → Bool
is_of_track track_id dialogue_id translation =
    str_eq translation.owner.track_id track_id
    && str_eq translation.owner.localized_dialogue_id dialogue_id

-- The rows of the `updateMany` on a translation's selection.
unfoldable pub is_owned_translation :
    String → String → AccessContext → String → DialogueTranslation → Bool
is_owned_translation translation_id track_id context project_id translation =
    str_eq translation.id translation_id
    && str_eq translation.scope.organization_id context.organization_id
    && str_eq translation.scope.project_id project_id
    && str_eq translation.owner.track_id track_id

-- `translation?.selection?.revision ?? 0`
unfoldable pub selection_revision_of : Option DialogueTranslation → ℕ
selection_revision_of none = 0
selection_revision_of (some translation) = elim translation.selection [
  | none ↦ 0
  | some selection ↦ selection.revision
]

-- The text of the active revision is the new one.
unfoldable pub has_active_text : String → Option DialogueTranslation → Result LocalizationError Bool
has_active_text text none = ok false
has_active_text text (some translation) = elim translation.selection [
  | none ↦ ok false
  | some selection ↦ selected_revision translation.revisions selection >>= λ revision.
      ok (str_eq revision.content.translated_text text)
]

unfoldable pub new_translation :
    AccessContext → Scope → String → String → String → DialogueTranslation
new_translation context scope translation_id track_id dialogue_id = record {
  id = translation_id;
  scope = scope;
  owner = record {
    track_id = track_id;
    localized_dialogue_id = dialogue_id;
    created_by_user_id = context.user_id;
  };
  revisions = [];
  selection = none;
}

abbrev pub has_translation_id : String → DialogueTranslation → Bool
has_translation_id id translation = str_eq translation.id id

-- The row of the translation, created where it is missing, and the table with it.
unfoldable pub ensure_translation :
    DialogueTranslation
    → Option DialogueTranslation
    → List DialogueTranslation
    → Result LocalizationError (DialogueTranslation × List DialogueTranslation)
ensure_translation fresh (some translation) translations = ok (translation, translations)
ensure_translation fresh none translations =
    if is_some (find (has_translation_id fresh.id) translations)
    then err unique_violation
    else ok (fresh, translations ++ fresh ∷ [])

-- `translationSelection.create`: the first selection of the row.
unfoldable pub create_selection :
    AccessContext
    → String
    → String
    → List DialogueTranslation
    → Result LocalizationError (List DialogueTranslation)
create_selection context translation_id revision_id translations =
    elim (find (has_translation_id translation_id) translations) [
      | none ↦ err database_failure
      | some translation ↦
          if is_some translation.selection
          then err unique_violation
          else ok (
              update (has_translation_id translation_id)
                (λ t. record t {
                  selection = some (record {
                    revision = 1;
                    selected_revision_id = revision_id;
                    updated_by_user_id = context.user_id;
                    state = draft;
                  });
                })
                translations)
    ]

abbrev pub TranslationOutcome : Type 0
TranslationOutcome =
    Result LocalizationError
      (List DialogueTranslation × LocalizationAudit × TranslationRevisionResponse)

-- `write` of the transactions on translations.
unfoldable pub put_translations : List DialogueTranslation → Store → Store
put_translations translations store = record store { translations = translations }
