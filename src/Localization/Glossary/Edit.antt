-- ===== src/Localization/Glossary/Edit.antt =====
-- The three requests that write the glossary.
use voice_verse_ai.Common.{
  ℕ, ◌+◌, String, Bool, ◌&&◌, some, str_eq, text_eq, Result, ok, ◌>>=◌, ◌>>◌, throw_if,
}
use voice_verse_ai.Ingest.Types.{AccessContext}
use voice_verse_ai.Ingest.Tables.{find}
use voice_verse_ai.Localization.Types.{
  Scope, Revision, NormalizedGlossaryInput, Store, LocalizationError, glossary_entry_not_found,
  glossary_revision_not_found, edit_without_change, already_active,
}
use voice_verse_ai.Localization.Versions.{
  has_revision_id, selected_revision, next_revision_number, assert_expected_revision, add_revision,
  require_selection, require,
}
use voice_verse_ai.Localization.Access.{
  EditEnv, assert_can_edit, assert_uuid, owned_track, audit_entry, rethrow_glossary_write_error,
  commit, checked, scope_of, new_revision, SelectRevision,
}
use voice_verse_ai.Localization.Glossary.{
  GlossaryInput, normalize_glossary_input, GlossaryRevisionResponse, to_glossary_revision_response,
  same_bool, owned_glossary_entry, cas_glossary_selection, GlossaryOutcome, put_glossary,
  insert_entry,
}

unfoldable pub create_glossary_entry :
    EditEnv
    → AccessContext
    → String
    → String
    → GlossaryInput
    → Store
    → Store × Result LocalizationError GlossaryRevisionResponse
create_glossary_entry env context project_id track_id input store =
    checked store (assert_can_edit context >> normalize_glossary_input env input) λ normalized.
      commit rethrow_glossary_write_error put_glossary env.fault store
        (insert_entry env context project_id track_id normalized store)

-- The edit changes none of the columns that an editor sees.
unfoldable pub same_term : NormalizedGlossaryInput → NormalizedGlossaryInput → Bool
unfolding same_bool
same_term a b =
    str_eq a.source_term b.source_term
    && text_eq a.target_term b.target_term
    && text_eq a.notes b.notes
    && same_bool a.case_sensitive b.case_sensitive
    && same_bool a.do_not_translate b.do_not_translate

unfoldable pub write_entry :
    AccessContext
    → Scope
    → String
    → String
    → ℕ
    → Revision NormalizedGlossaryInput
    → Store
    → GlossaryOutcome
write_entry context scope track_id entry_id expected_revision revision store = do
  added ← add_revision entry_id revision store.glossary
  entries ← cas_glossary_selection context scope track_id entry_id revision expected_revision added
  ok (
    entries,
    audit_entry context "localization.glossary.revision.created" "glossary_entry" entry_id,
    to_glossary_revision_response entry_id revision (some (expected_revision + 1)),
  )

unfoldable pub edit_entry :
    EditEnv
    → AccessContext
    → String
    → String
    → String
    → NormalizedGlossaryInput
    → ℕ
    → Store
    → GlossaryOutcome
edit_entry env context project_id track_id entry_id normalized expected_revision store = do
  track ← owned_track context project_id track_id store
  entry ← owned_glossary_entry (scope_of context project_id track) track_id entry_id store
  found ← require_selection glossary_entry_not_found (some entry)
  assert_expected_revision found.1.revision expected_revision
  active ← selected_revision entry.revisions found.1
  throw_if (same_term active.content normalized) edit_without_change
  write_entry context (scope_of context project_id track) track_id entry_id expected_revision
      (new_revision env context (next_revision_number entry.revisions) normalized) store

-- `UpdateGlossaryRevisionDto`
pub record UpdateGlossary : Type 0 where
  pub term : GlossaryInput
  pub expected_revision : ℕ

unfoldable pub update_glossary_entry :
    EditEnv
    → AccessContext
    → String
    → String
    → String
    → UpdateGlossary
    → Store
    → Store × Result LocalizationError GlossaryRevisionResponse
update_glossary_entry env context project_id track_id entry_id input store =
    checked store
      (assert_can_edit context
        >> assert_uuid entry_id "glossary entry"
        >> normalize_glossary_input env input.term)
      λ normalized. commit rethrow_glossary_write_error put_glossary env.fault store (
        edit_entry env context project_id track_id entry_id normalized input.expected_revision
          store)

unfoldable pub choose_entry :
    AccessContext → String → String → String → SelectRevision → Store → GlossaryOutcome
choose_entry context project_id track_id entry_id input store = do
  track ← owned_track context project_id track_id store
  entry ← owned_glossary_entry (scope_of context project_id track) track_id entry_id store
  found ← require_selection glossary_entry_not_found (some entry)
  revision ←
      require glossary_revision_not_found (find (has_revision_id input.revision_id) entry.revisions)
  assert_expected_revision found.1.revision input.expected_revision
  throw_if (str_eq found.1.selected_revision_id revision.id) already_active
  entries ←
      cas_glossary_selection context (scope_of context project_id track) track_id entry_id revision
        input.expected_revision store.glossary
  ok (
    entries,
    audit_entry context "localization.glossary.selection.changed" "glossary_entry" entry_id,
    to_glossary_revision_response entry_id revision (some (input.expected_revision + 1)),
  )

unfoldable pub select_glossary_revision :
    EditEnv
    → AccessContext
    → String
    → String
    → String
    → SelectRevision
    → Store
    → Store × Result LocalizationError GlossaryRevisionResponse
select_glossary_revision env context project_id track_id entry_id input store =
    checked store
      (assert_can_edit context
        >> assert_uuid entry_id "glossary entry"
        >> assert_uuid input.revision_id "glossary revision")
      λ _.
        commit rethrow_glossary_write_error put_glossary env.fault store
          (choose_entry context project_id track_id entry_id input store)
