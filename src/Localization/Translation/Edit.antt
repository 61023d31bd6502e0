-- ===== src/Localization/Translation/Edit.antt =====
-- The two requests that write revisions of a translation.
use voice_verse_ai.Common.{
  ℕ, ◌+◌, String, ◌&&◌, ◌==◌, if◌then◌else◌, none, some, List, str_eq, Result, ok, ◌>>=◌, ◌>>◌,
  throw_if,
}
use voice_verse_ai.Ingest.Types.{AccessContext}
use voice_verse_ai.Ingest.Tables.{find}
use voice_verse_ai.Localization.Types.{
  same_scope, Revision, DialogueTranslation, TranslationContent, draft, Store, LocalizationError,
  source_not_found, translation_not_found, translation_revision_not_found, edit_without_change,
  already_active,
}
use voice_verse_ai.Localization.Values.{normalize_required_editorial_text}
use voice_verse_ai.Localization.Versions.{
  has_revision_id, next_revision_number, assert_expected_revision, reselect, cas_selection,
  add_revision, require_selection, require,
}
use voice_verse_ai.Localization.Access.{
  EditEnv, assert_can_edit, assert_uuid, owned_track, audit_entry, rethrow_write_conflict, commit,
  checked, scope_of, new_revision, SelectRevision,
}
use voice_verse_ai.Localization.Source.{owned_dialogue}
use voice_verse_ai.Localization.Translation.{
  TranslationRevisionResponse, to_translation_revision_response, is_of_track, is_owned_translation,
  selection_revision_of, has_active_text, new_translation, ensure_translation, create_selection,
  TranslationOutcome, put_translations,
}

-- The first selection where the editor saw none, and the next one otherwise.
unfoldable pub activate_translation :
    AccessContext
    → String
    → String
    → String
    → ℕ
    → String
    → List DialogueTranslation
    → Result LocalizationError (List DialogueTranslation)
activate_translation context project_id track_id translation_id expected_revision revision_id
      translations =
    if expected_revision == 0
    then create_selection context translation_id revision_id translations
    else cas_selection (is_owned_translation translation_id track_id context project_id)
        expected_revision (reselect context.user_id revision_id draft) translations

-- The revision that an edit creates, of the active source.
abbrev pub translation_revision :
    EditEnv → AccessContext → String → String → DialogueTranslation → Revision TranslationContent
translation_revision env context source_revision_id text translation =
    new_revision env context (next_revision_number translation.revisions) (record {
      source_dialogue_revision_id = source_revision_id;
      translated_text = text;
      generation_id = none;
    })

unfoldable pub write_translation :
    EditEnv
    → AccessContext
    → String
    → String
    → String
    → ℕ
    → DialogueTranslation × List DialogueTranslation
    → TranslationOutcome
write_translation env context project_id source_revision_id text expected_revision ensured = do
  added ←
      add_revision ensured.0.id (translation_revision env context source_revision_id text ensured.0)
        ensured.1
  translations ←
      activate_translation context project_id ensured.0.owner.track_id ensured.0.id
        expected_revision env.revision_id added
  ok (
    translations,
    audit_entry context "localization.dialogue.translation_revision.created" "dialogue_translation"
        ensured.0.id,
    to_translation_revision_response ensured.0
        (translation_revision env context source_revision_id text ensured.0) draft
        (some (expected_revision + 1)),
  )

unfoldable pub edit_translation :
    EditEnv
    → String
    → AccessContext
    → String
    → String
    → String
    → String
    → ℕ
    → Store
    → TranslationOutcome
edit_translation env translation_id context project_id track_id dialogue_id text expected_revision
      store =
    do
      track ← owned_track context project_id track_id store
      dialogue ← owned_dialogue (scope_of context project_id track) dialogue_id store
      source ← require_selection source_not_found (some dialogue)
      assert_expected_revision
          (selection_revision_of (find (is_of_track track_id dialogue_id) store.translations))
          expected_revision
      same ← has_active_text text (find (is_of_track track_id dialogue_id) store.translations)
      throw_if same edit_without_change
      ensured ←
          ensure_translation
            (new_translation context (scope_of context project_id track) translation_id track_id
              dialogue_id)
            (find (is_of_track track_id dialogue_id) store.translations) store.translations
      write_translation env context project_id source.1.selected_revision_id text expected_revision
          ensured

-- `UpdateTranslationRevisionDto`
pub record UpdateTranslation : Type 0 where
  pub target_text : String
  pub expected_revision : ℕ

unfoldable pub update_translation :
    EditEnv
    → String
    → AccessContext
    → String
    → String
    → String
    → UpdateTranslation
    → Store
    → Store × Result LocalizationError TranslationRevisionResponse
update_translation env translation_id context project_id track_id dialogue_id input store =
    checked store
      (assert_can_edit context
        >> assert_uuid dialogue_id "dialogue"
        >> normalize_required_editorial_text env.nfc input.target_text)
      λ text. commit rethrow_write_conflict put_translations env.fault store (
        edit_translation env translation_id context project_id track_id dialogue_id text
          input.expected_revision store)

unfoldable pub choose_translation :
    AccessContext → String → String → String → SelectRevision → Store → TranslationOutcome
choose_translation context project_id track_id dialogue_id input store = do
  track ← owned_track context project_id track_id store
  _ ← owned_dialogue (scope_of context project_id track) dialogue_id store
  found ←
      require_selection translation_not_found
        (find (is_of_track track_id dialogue_id) store.translations)
  revision ← require translation_revision_not_found (
      find
        (λ (r : Revision TranslationContent).
          has_revision_id input.revision_id r
          && same_scope found.0.scope (scope_of context project_id track))
        found.0.revisions)
  assert_expected_revision found.1.revision input.expected_revision
  throw_if (str_eq found.1.selected_revision_id revision.id) already_active
  translations ←
      cas_selection (is_owned_translation found.0.id track_id context project_id)
        input.expected_revision (reselect context.user_id revision.id draft) store.translations
  ok (
    translations,
    audit_entry context "localization.dialogue.translation_selection.changed" "dialogue_translation"
        found.0.id,
    to_translation_revision_response found.0 revision draft (some (input.expected_revision + 1)),
  )

unfoldable pub select_translation_revision :
    EditEnv
    → AccessContext
    → String
    → String
    → String
    → SelectRevision
    → Store
    → Store × Result LocalizationError TranslationRevisionResponse
select_translation_revision env context project_id track_id dialogue_id input store =
    checked store
      (assert_can_edit context
        >> assert_uuid dialogue_id "dialogue"
        >> assert_uuid input.revision_id "translation revision")
      λ _.
        commit rethrow_write_conflict put_translations env.fault store
          (choose_translation context project_id track_id dialogue_id input store)
