-- ===== src/Localization/Review.antt =====
-- `updateTranslationState` of the localization service: the editor's state machine.
use Prim.Native.String.{◌++◌ as str_append}
use voice_verse_ai.Common.{
  ℕ, ◌+◌, String, Bool, true, false, not, ◌&&◌, Option, none, some, text_eq, Result, ok, ◌>>=◌,
  ◌>>◌, throw_if,
}
use voice_verse_ai.Ingest.Types.{AccessContext}
use voice_verse_ai.Ingest.Tables.{find}
use voice_verse_ai.Localization.Types.{
  LocalizedDialogue, DialogueTranslation, TranslationEditorState, draft, in_review, approved, Store,
  LocalizationError, translation_not_found, invalid_transition, active_source_changed,
}
use voice_verse_ai.Localization.Versions.{
  selected_revision, assert_expected_revision, cas_selection, require_selection,
}
use voice_verse_ai.Localization.Access.{
  EditEnv, assert_can_edit, assert_uuid, owned_track, audit_entry, rethrow_write_conflict, commit,
  checked, scope_of,
}
use voice_verse_ai.Localization.Source.{owned_dialogue}
use voice_verse_ai.Localization.Translation.{
  TranslationRevisionResponse, to_translation_revision_response, is_of_track, is_owned_translation,
  TranslationOutcome, put_translations,
}

unfoldable pub is_draft : TranslationEditorState → Bool
is_draft draft = true
is_draft _ = false

unfoldable pub can_move : TranslationEditorState → TranslationEditorState → Bool
can_move draft in_review = true
can_move in_review draft = true
can_move in_review approved = true
can_move approved draft = true
can_move _ _ = false

unfoldable pub assert_editor_state_transition :
    TranslationEditorState → TranslationEditorState → Result LocalizationError (Unit {0})
assert_editor_state_transition current requested =
    throw_if (not (can_move current requested)) invalid_transition

-- `dialogue.sourceSelection?.selectedRevisionId`
unfoldable pub active_source_id : LocalizedDialogue → Option String
active_source_id dialogue = elim dialogue.selection [
  | none ↦ none
  | some selection ↦ some selection.selected_revision_id
]

unfoldable pub move_state :
    String → TranslationEditorState → DialogueTranslation → DialogueTranslation
move_state user_id state translation = record translation {
  selection = elim translation.selection [
    | none ↦ none
    | some s ↦
        some (record s { revision = s.revision + 1; updated_by_user_id = user_id; state = state })
  ];
}

-- The lower-case name of a state in the audit log.
unfoldable pub state_text : TranslationEditorState → String
state_text draft = "draft"
state_text in_review = "in_review"
state_text approved = "approved"

unfoldable pub state_action : TranslationEditorState → TranslationEditorState → String
unfolding state_text
state_action current requested =
    str_append "localization.dialogue.translation_state."
      (str_append (state_text current) (str_append "_to_" (state_text requested)))

-- `UpdateTranslationStateDto`
pub record UpdateState : Type 0 where
  pub state : TranslationEditorState
  pub expected_revision : ℕ

-- The translation was made from another source than the active one.
unfoldable pub is_outdated : TranslationEditorState → Option String → Option String → Bool
unfolding is_draft
is_outdated requested source active = not (is_draft requested) && not (text_eq source active)

unfoldable pub change_state :
    AccessContext → String → String → String → UpdateState → Store → TranslationOutcome
change_state context project_id track_id dialogue_id input store = do
  track ← owned_track context project_id track_id store
  dialogue ← owned_dialogue (scope_of context project_id track) dialogue_id store
  found ←
      require_selection translation_not_found
        (find (is_of_track track_id dialogue_id) store.translations)
  assert_expected_revision found.1.revision input.expected_revision
  assert_editor_state_transition found.1.state input.state
  revision ← selected_revision found.0.revisions found.1
  throw_if
      (is_outdated input.state (some revision.content.source_dialogue_revision_id)
        (active_source_id dialogue))
      active_source_changed
  translations ←
      cas_selection (is_owned_translation found.0.id track_id context project_id)
        input.expected_revision (move_state context.user_id input.state) store.translations
  ok (
    translations,
    audit_entry context (state_action found.1.state input.state) "dialogue_translation" found.0.id,
    to_translation_revision_response found.0 revision input.state
        (some (input.expected_revision + 1)),
  )

unfoldable pub update_translation_state :
    EditEnv
    → AccessContext
    → String
    → String
    → String
    → UpdateState
    → Store
    → Store × Result LocalizationError TranslationRevisionResponse
update_translation_state env context project_id track_id dialogue_id input store =
    checked store (assert_can_edit context >> assert_uuid dialogue_id "dialogue") λ _.
      commit rethrow_write_conflict put_translations env.fault store
        (change_state context project_id track_id dialogue_id input store)
