-- ===== src/Localization/Source.antt =====
-- `updateSourceDialogue` and `selectSourceRevision` of the localization service.
use voice_verse_ai.Common.{
  ℕ, ◌+◌, String, Bool, ◌&&◌, Option, none, some, List, str_eq, Result, ok, ◌>>=◌, ◌>>◌, throw_if,
}
use voice_verse_ai.Ingest.Types.{AccessContext}
use voice_verse_ai.Ingest.Tables.{find, update}
use voice_verse_ai.Localization.Types.{
  Scope, same_scope, Revision, LocalizedDialogue, DialogueTranslation, draft, LocalizationAudit,
  Store, LocalizationError, dialogue_not_found, source_not_found, source_revision_not_found,
  edit_without_change, already_active,
}
use voice_verse_ai.Localization.Values.{normalize_required_editorial_text}
use voice_verse_ai.Localization.Versions.{
  is_owned, has_revision_id, selected_revision, next_revision_number, assert_expected_revision,
  reselect, cas_selection, add_revision, require_selection, require,
}
use voice_verse_ai.Localization.Access.{
  EditEnv, assert_can_edit, assert_uuid, owned_track, audit_entry, rethrow_write_conflict, commit,
  checked, scope_of, new_revision, SelectRevision,
}

pub record SourceRevisionResponse : Type 0 where
  pub id : String
  pub dialogue_id : String
  pub revision_number : ℕ
  pub selection_revision : Option ℕ
  pub source_text : String
  pub created_at : ℕ
  pub created_by_user_id : String

unfoldable pub to_source_revision_response :
    String → Revision String → Option ℕ → SourceRevisionResponse
to_source_revision_response dialogue_id revision selection_revision = record {
  id = revision.id;
  dialogue_id = dialogue_id;
  revision_number = revision.revision_number;
  selection_revision = selection_revision;
  source_text = revision.content;
  created_at = revision.created_at;
  created_by_user_id = revision.created_by_user_id;
}

unfoldable pub owned_dialogue : Scope → String → Store → Result LocalizationError LocalizedDialogue
owned_dialogue scope dialogue_id store =
    require dialogue_not_found (find (is_owned dialogue_id scope) store.dialogues)

unfoldable pub cas_source_selection :
    AccessContext
    → Scope
    → String
    → String
    → ℕ
    → List LocalizedDialogue
    → Result LocalizationError (List LocalizedDialogue)
cas_source_selection context scope dialogue_id revision_id expected_revision dialogues =
    cas_selection (is_owned dialogue_id scope) expected_revision
      (reselect context.user_id revision_id tt) dialogues

-- The translation is one of the dialogue, in any track of the workspace.
unfoldable pub is_translation_of : Scope → String → DialogueTranslation → Bool
is_translation_of scope dialogue_id translation =
    str_eq translation.owner.localized_dialogue_id dialogue_id && same_scope translation.scope scope

-- The selection of the translation goes back to `DRAFT`, at its next revision.
unfoldable pub reopen : String → DialogueTranslation → DialogueTranslation
reopen user_id translation = record translation {
  selection = elim translation.selection [
    | none ↦ none
    | some s ↦
        some (record s { revision = s.revision + 1; updated_by_user_id = user_id; state = draft })
  ];
}

unfoldable pub reopen_translations_after_source_change :
    AccessContext → Scope → String → List DialogueTranslation → List DialogueTranslation
reopen_translations_after_source_change context scope dialogue_id translations =
    update (is_translation_of scope dialogue_id) (reopen context.user_id) translations

abbrev pub SourceTables : Type 0
SourceTables = List LocalizedDialogue × List DialogueTranslation

abbrev pub SourceOutcome : Type 0
SourceOutcome = Result LocalizationError (SourceTables × LocalizationAudit × SourceRevisionResponse)

-- What both operations end with: the selection, the translations, the audit entry and the answer.
unfoldable pub activate_source :
    AccessContext
    → Scope
    → String
    → String
    → ℕ
    → Revision String
    → List LocalizedDialogue
    → Store
    → SourceOutcome
activate_source context scope dialogue_id action expected_revision revision added store = do
  dialogues ← cas_source_selection context scope dialogue_id revision.id expected_revision added
  ok (
    (
      dialogues,
      reopen_translations_after_source_change context scope dialogue_id store.translations,
    ),
    audit_entry context action "localized_dialogue" dialogue_id,
    to_source_revision_response dialogue_id revision (some (expected_revision + 1)),
  )

unfoldable pub write_source :
    AccessContext → Scope → String → ℕ → Revision String → Store → SourceOutcome
write_source context scope dialogue_id expected_revision revision store =
    add_revision dialogue_id revision store.dialogues >>= λ added.
    activate_source context scope dialogue_id "localization.dialogue.source_revision.created"
      expected_revision revision added store

unfoldable pub edit_source :
    EditEnv → AccessContext → String → String → String → String → ℕ → Store → SourceOutcome
edit_source env context project_id track_id dialogue_id source_text expected_revision store = do
  track ← owned_track context project_id track_id store
  dialogue ← owned_dialogue (scope_of context project_id track) dialogue_id store
  found ← require_selection source_not_found (some dialogue)
  assert_expected_revision found.1.revision expected_revision
  current ← selected_revision dialogue.revisions found.1
  throw_if (str_eq current.content source_text) edit_without_change
  write_source context (scope_of context project_id track) dialogue_id expected_revision
      (new_revision env context (next_revision_number dialogue.revisions) source_text) store

-- `write` of the transactions on source texts.
unfoldable pub put_sources : SourceTables → Store → Store
put_sources tables store = record store { dialogues = tables.0; translations = tables.1 }

-- `UpdateSourceDialogueRevisionDto`
pub record UpdateSource : Type 0 where
  pub source_text : String
  pub expected_revision : ℕ

unfoldable pub update_source_dialogue :
    EditEnv
    → AccessContext
    → String
    → String
    → String
    → UpdateSource
    → Store
    → Store × Result LocalizationError SourceRevisionResponse
update_source_dialogue env context project_id track_id dialogue_id input store =
    checked store
      (assert_can_edit context
        >> assert_uuid dialogue_id "dialogue"
        >> normalize_required_editorial_text env.nfc input.source_text)
      λ source_text. commit rethrow_write_conflict put_sources env.fault store (
        edit_source env context project_id track_id dialogue_id source_text input.expected_revision
          store)

unfoldable pub choose_source :
    AccessContext → String → String → String → SelectRevision → Store → SourceOutcome
choose_source context project_id track_id dialogue_id input store = do
  track ← owned_track context project_id track_id store
  dialogue ← owned_dialogue (scope_of context project_id track) dialogue_id store
  found ← require_selection source_not_found (some dialogue)
  revision ←
      require source_revision_not_found
        (find (has_revision_id input.revision_id) dialogue.revisions)
  assert_expected_revision found.1.revision input.expected_revision
  throw_if (str_eq found.1.selected_revision_id revision.id) already_active
  activate_source context (scope_of context project_id track) dialogue_id
      "localization.dialogue.source_selection.changed" input.expected_revision revision
      store.dialogues store

unfoldable pub select_source_revision :
    EditEnv
    → AccessContext
    → String
    → String
    → String
    → SelectRevision
    → Store
    → Store × Result LocalizationError SourceRevisionResponse
select_source_revision env context project_id track_id dialogue_id input store =
    checked store
      (assert_can_edit context
        >> assert_uuid dialogue_id "dialogue"
        >> assert_uuid input.revision_id "source revision")
      λ _.
        commit rethrow_write_conflict put_sources env.fault store
          (choose_source context project_id track_id dialogue_id input store)
