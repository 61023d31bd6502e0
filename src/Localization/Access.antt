-- ===== src/Localization/Access.antt =====
-- The checks that the localization service's methods share, what they read of a track, and the end of
-- their transactions.
use voice_verse_ai.Common.{
  ℕ, String, Bool, not, ◌&&◌, Option, none, some, [], ◌∷◌, ◌++◌, str_eq, Result, ok, err, ◌>>◌,
  throw_if,
}
use voice_verse_ai.Ingest.Types.{AccessContext}
use voice_verse_ai.Ingest.Patterns.{matches_uuid}
use voice_verse_ai.Ingest.Checks.{is_viewer}
use voice_verse_ai.Ingest.Tables.{find}
use voice_verse_ai.Localization.Types.{
  Scope, Revision, LocalizationTrack, LocalizationAudit, Store, LocalizationError, role_cannot_edit,
  invalid_id, track_not_found, selection_conflict, glossary_term_used, unique_violation,
  write_conflict,
}

-- What an edit draws from its surroundings: NFC, the ids of `uuidv7()`, the clock, and the error of
-- the commit, if it fails.
pub record EditEnv : Type 0 where
  pub nfc : String → String
  pub to_lower_case : String → String
  pub revision_id : String
  pub entry_id : String
  pub now : ℕ
  pub fault : Option LocalizationError

unfoldable pub assert_can_edit : AccessContext → Result LocalizationError (Unit {0})
assert_can_edit context = throw_if (is_viewer context.role) role_cannot_edit

unfoldable pub assert_uuid : String → String → Result LocalizationError (Unit {0})
assert_uuid value resource = throw_if (not (matches_uuid value)) (invalid_id resource)

abbrev pub is_owned_track : AccessContext → String → String → LocalizationTrack → Bool
is_owned_track context project_id track_id track =
    str_eq track.id track_id
    && str_eq track.scope.organization_id context.organization_id
    && str_eq track.scope.project_id project_id

unfoldable pub owned_track :
    AccessContext → String → String → Store → Result LocalizationError LocalizationTrack
owned_track context project_id track_id store = do
  assert_uuid project_id "project"
  assert_uuid track_id "localization track"
  elim (find (is_owned_track context project_id track_id) store.tracks) [
    | none ↦ err track_not_found
    | some track ↦ ok track
  ]

-- The entry of the audit log; its metadata repeats what the answer says.
unfoldable pub audit_entry : AccessContext → String → String → String → LocalizationAudit
audit_entry context action resource_type resource_id = record {
  action = action;
  actor_user_id = context.user_id;
  organization_id = context.organization_id;
  resource_type = resource_type;
  resource_id = resource_id;
}

unfoldable pub rethrow_write_conflict : LocalizationError → LocalizationError
rethrow_write_conflict unique_violation = selection_conflict
rethrow_write_conflict write_conflict = selection_conflict
rethrow_write_conflict error = error

unfoldable pub rethrow_glossary_write_error : LocalizationError → LocalizationError
unfolding rethrow_write_conflict
rethrow_glossary_write_error unique_violation = glossary_term_used
rethrow_glossary_write_error error = rethrow_write_conflict error

-- A serializable transaction: nothing is written where it throws or where its commit fails. Its
-- outcome is the tables that it leaves, one entry of the audit log, and the answer.
unfoldable pub commit {ℓ κ} :
    {T : Type ℓ} {A : Type κ}
    → (LocalizationError → LocalizationError)
    → (T → Store → Store)
    → Option LocalizationError
    → Store
    → Result LocalizationError (T × LocalizationAudit × A)
    → Store × Result LocalizationError A
commit rethrow write fault store (err e) = (store, err (rethrow e))
commit rethrow write (some e) store (ok _) = (store, err (rethrow e))
commit rethrow write none store (ok (tables, entry, answer)) = (
  (let written = write tables store in record written { audit = written.audit ++ entry ∷ [] }),
  ok answer,
)

-- What stands before the transaction throws as it is.
unfoldable pub checked {ℓ κ} :
    {C : Type ℓ} {A : Type κ}
    → Store
    → Result LocalizationError C
    → (C → Store × Result LocalizationError A)
    → Store × Result LocalizationError A
checked store (err e) next = (store, err e)
checked store (ok c) next = next c

-- The scope in which a request looks for the rows of its track.
unfoldable pub scope_of : AccessContext → String → LocalizationTrack → Scope
scope_of context project_id track = record {
  organization_id = context.organization_id;
  project_id = project_id;
  workspace_id = track.scope.workspace_id;
}

-- The revision that an edit creates.
unfoldable pub new_revision {ℓ} : {P : Type ℓ} → EditEnv → AccessContext → ℕ → P → Revision P
new_revision env context revision_number content = record {
  id = env.revision_id;
  revision_number = revision_number;
  created_by_user_id = context.user_id;
  created_at = env.now;
  content = content;
}

-- `SelectLocalizationRevisionDto`
pub record SelectRevision : Type 0 where
  pub revision_id : String
  pub expected_revision : ℕ
