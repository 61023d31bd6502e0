-- ===== src/Localization/Glossary.antt =====
-- `createGlossaryEntry`, `updateGlossaryEntry`, `selectGlossaryRevision` and `normalizeGlossaryInput` of
-- the localization service. A unique index keeps the active terms of a track apart.
use voice_verse_ai.Common.{
  ℕ, ◌+◌, String, Bool, true, false, not, ◌&&◌, ◌||◌, leb, if◌then◌else◌, Option, none, some, List,
  [], ◌∷◌, ◌++◌, length, keep, str_eq, text_eq, Result, ok, err, ◌>>=◌, ◌>>◌, throw_if,
}
use voice_verse_ai.Common.Text.{is_empty}
use voice_verse_ai.Ingest.Types.{AccessContext}
use voice_verse_ai.Ingest.Tables.{find}
use voice_verse_ai.Ingest.Create.{is_some}
use voice_verse_ai.Localization.Types.{
  Scope, same_scope, Revision, Selection, NormalizedGlossaryInput, GlossaryKey, GlossaryEntry,
  LocalizationAudit, Store, LocalizationError, glossary_entry_not_found,
  glossary_revision_not_found, edit_without_change, already_active, glossary_full,
  blank_source_term, target_term_required, target_term_forbidden, unique_violation,
}
use voice_verse_ai.Localization.Values.{
  normalize_optional_editorial_text, normalize_glossary_source_term, glossary_comparison_key,
}
use voice_verse_ai.Localization.Versions.{
  has_revision_id, selected_revision, next_revision_number, assert_expected_revision, reselect,
  cas_selection, is_taken, add_revision, require_selection, require,
}
use voice_verse_ai.Localization.Access.{
  EditEnv, assert_can_edit, assert_uuid, owned_track, audit_entry, rethrow_glossary_write_error,
  commit, checked, scope_of, new_revision, SelectRevision,
}
pub mod Edit
pub mod Limit

-- `CreateGlossaryEntryDto`
pub record GlossaryInput : Type 0 where
  pub source_term : String
  pub target_term : Option String
  pub notes : Option String
  pub case_sensitive : Bool
  pub do_not_translate : Bool

unfoldable pub normalize_glossary_input :
    EditEnv → GlossaryInput → Result LocalizationError NormalizedGlossaryInput
unfolding is_empty is_some
normalize_glossary_input env input =
    let source_term = normalize_glossary_source_term env.nfc input.source_term in
    let target_term = normalize_optional_editorial_text env.nfc input.target_term in
    do
      throw_if (is_empty source_term) blank_source_term
      throw_if (not input.do_not_translate && not (is_some target_term)) target_term_required
      throw_if (input.do_not_translate && is_some target_term) target_term_forbidden
      ok (record {
        source_term = source_term;
        normalized_source_term =
            glossary_comparison_key env.to_lower_case source_term input.case_sensitive;
        target_term = target_term;
        notes = normalize_optional_editorial_text env.nfc input.notes;
        case_sensitive = input.case_sensitive;
        do_not_translate = input.do_not_translate;
      })

pub record GlossaryRevisionResponse : Type 0 where
  pub id : String
  pub entry_id : String
  pub revision_number : ℕ
  pub selection_revision : Option ℕ
  pub source_term : String
  pub target_term : Option String
  pub notes : Option String
  pub case_sensitive : Bool
  pub do_not_translate : Bool
  pub created_at : ℕ
  pub created_by_user_id : String

unfoldable pub to_glossary_revision_response :
    String → Revision NormalizedGlossaryInput → Option ℕ → GlossaryRevisionResponse
to_glossary_revision_response entry_id revision selection_revision = record {
  id = revision.id;
  entry_id = entry_id;
  revision_number = revision.revision_number;
  selection_revision = selection_revision;
  source_term = revision.content.source_term;
  target_term = revision.content.target_term;
  notes = revision.content.notes;
  case_sensitive = revision.content.case_sensitive;
  do_not_translate = revision.content.do_not_translate;
  created_at = revision.created_at;
  created_by_user_id = revision.created_by_user_id;
}

unfoldable pub glossary_key_of : NormalizedGlossaryInput → GlossaryKey
glossary_key_of content = record {
  selected_normalized_source_term = content.normalized_source_term;
  selected_case_sensitive = content.case_sensitive;
}

unfoldable pub same_bool : Bool → Bool → Bool
same_bool true b = b
same_bool false b = not b

unfoldable pub same_key : GlossaryKey → GlossaryKey → Bool
unfolding same_bool
same_key a b =
    str_eq a.selected_normalized_source_term b.selected_normalized_source_term
    && same_bool a.selected_case_sensitive b.selected_case_sensitive

-- The entry is active in the track under the key.
unfoldable pub is_active_term : String → GlossaryKey → GlossaryEntry → Bool
is_active_term track_id key entry = elim entry.selection [
  | none ↦ false
  | some selection ↦ str_eq entry.owner.track_id track_id && same_key selection.state key
]

-- `glossary_selections_active_source_key`: another entry has the term.
unfoldable pub assert_term_free :
    String → String → GlossaryKey → List GlossaryEntry → Result LocalizationError (Unit {0})
unfolding is_some
assert_term_free entry_id track_id key entries =
    throw_if
      (is_some (
        find (λ (e : GlossaryEntry). not (str_eq e.id entry_id) && is_active_term track_id key e)
          entries))
      unique_violation

unfoldable pub is_of_glossary : Scope → String → GlossaryEntry → Bool
is_of_glossary scope track_id entry =
    same_scope entry.scope scope && str_eq entry.owner.track_id track_id

unfoldable pub is_owned_entry : Scope → String → String → GlossaryEntry → Bool
is_owned_entry scope track_id entry_id entry =
    str_eq entry.id entry_id && is_of_glossary scope track_id entry

unfoldable pub owned_glossary_entry :
    Scope → String → String → Store → Result LocalizationError GlossaryEntry
owned_glossary_entry scope track_id entry_id store =
    require glossary_entry_not_found (find (is_owned_entry scope track_id entry_id) store.glossary)

unfoldable pub cas_glossary_selection :
    AccessContext
    → Scope
    → String
    → String
    → Revision NormalizedGlossaryInput
    → ℕ
    → List GlossaryEntry
    → Result LocalizationError (List GlossaryEntry)
cas_glossary_selection context scope track_id entry_id revision expected_revision entries = do
  updated ←
      cas_selection (is_owned_entry scope track_id entry_id) expected_revision
        (reselect context.user_id revision.id (glossary_key_of revision.content)) entries
  assert_term_free entry_id track_id (glossary_key_of revision.content) entries
  ok updated

abbrev pub GlossaryOutcome : Type 0
GlossaryOutcome =
    Result LocalizationError (List GlossaryEntry × LocalizationAudit × GlossaryRevisionResponse)

-- `write` of the transactions on the glossary.
unfoldable pub put_glossary : List GlossaryEntry → Store → Store
put_glossary glossary store = record store { glossary = glossary }

abbrev pub glossary_limit : ℕ
glossary_limit = 200

-- The entry with its first revision and its first selection.
unfoldable pub first_entry :
    EditEnv → AccessContext → Scope → String → NormalizedGlossaryInput → GlossaryEntry
first_entry env context scope track_id normalized = record {
  id = env.entry_id;
  scope = scope;
  owner = record {
    track_id = track_id;
    created_at = env.now;
    created_by_user_id = context.user_id;
  };
  revisions = new_revision env context 1 normalized ∷ [];
  selection = some (record {
    revision = 1;
    selected_revision_id = env.revision_id;
    updated_by_user_id = context.user_id;
    state = glossary_key_of normalized;
  });
}

-- The primary keys of the entry and of its revision, and the active term.
unfoldable pub assert_entry_free :
    GlossaryEntry
    → Revision NormalizedGlossaryInput
    → List GlossaryEntry
    → Result LocalizationError (Unit {0})
unfolding is_some
assert_entry_free entry revision entries =
    throw_if
      (is_some (find (λ (e : GlossaryEntry). str_eq e.id entry.id) entries)
        || is_taken revision.id entries)
      unique_violation
    >> assert_term_free entry.id entry.owner.track_id (glossary_key_of revision.content) entries

unfoldable pub insert_entry :
    EditEnv → AccessContext → String → String → NormalizedGlossaryInput → Store → GlossaryOutcome
insert_entry env context project_id track_id normalized store = do
  track ← owned_track context project_id track_id store
  throw_if
      (leb glossary_limit (
        length (keep (is_of_glossary (scope_of context project_id track) track_id) store.glossary)))
      glossary_full
  assert_entry_free
      (first_entry env context (scope_of context project_id track) track_id normalized)
      (new_revision env context 1 normalized) store.glossary
  ok (
    store.glossary
        ++ first_entry env context (scope_of context project_id track) track_id normalized ∷ [],
    audit_entry context "localization.glossary.revision.created" "glossary_entry" env.entry_id,
    to_glossary_revision_response env.entry_id (new_revision env context 1 normalized) (some 1),
  )
