-- ===== src/Localization/Versions.antt =====
-- What the localization service does alike for scenes, source texts, translations and glossary
-- entries: number the next revision, add it, and make a revision the active one where the selection
-- still is the expected one.
use voice_verse_ai.Common.{
  ℕ, suc, ◌+◌, max, String, Bool, true, false, not, ◌&&◌, ◌==◌, if◌then◌else◌, Option, none, some,
  List, [], ◌∷◌, ◌++◌, length, keep, str_eq, Result, ok, err, throw_if,
}
use voice_verse_ai.Ingest.Tables.{find, update}
use voice_verse_ai.Ingest.Create.{is_some}
use voice_verse_ai.Localization.Types.{
  Scope, same_scope, Revision, Selection, Resource, LocalizationError, selection_conflict,
  unique_violation, database_failure,
}

-- `where: { id, organizationId, projectId, workspaceId }`
unfoldable pub is_owned {ℓ κ μ} :
    {K : Type ℓ} {P : Type κ} {X : Type μ} → String → Scope → Resource K P X → Bool
is_owned id scope row = str_eq row.id id && same_scope row.scope scope

abbrev pub has_revision_id {ℓ} : {P : Type ℓ} → String → Revision P → Bool
has_revision_id id revision = str_eq revision.id id

-- The relation `selectedRevision`. Its foreign key says that the revision is there.
unfoldable pub selected_revision {ℓ κ} :
    {P : Type ℓ} {X : Type κ}
    → List (Revision P)
    → Selection X
    → Result LocalizationError (Revision P)
selected_revision revisions selection =
    elim (find (has_revision_id selection.selected_revision_id) revisions) [
      | none ↦ err database_failure
      | some revision ↦ ok revision
    ]

unfoldable pub max_revision_number {ℓ} : {P : Type ℓ} → List (Revision P) → ℕ
max_revision_number [] = 0
max_revision_number (r ∷ rs) = max r.revision_number (max_revision_number rs)

-- `(result._max.revisionNumber ?? 0) + 1`
unfoldable pub next_revision_number {ℓ} : {P : Type ℓ} → List (Revision P) → ℕ
unfolding max_revision_number
next_revision_number revisions = suc (max_revision_number revisions)

unfoldable pub assert_expected_revision : ℕ → ℕ → Result LocalizationError (Unit {0})
assert_expected_revision actual expected = throw_if (not (actual == expected)) selection_conflict

-- The selection of the row is the one that the editor saw.
unfoldable pub selected_at {ℓ κ μ} :
    {K : Type ℓ} {P : Type κ} {X : Type μ} → ℕ → Resource K P X → Bool
selected_at expected row = elim row.selection [
  | none ↦ false
  | some selection ↦ selection.revision == expected
]

-- `data` of the `updateMany` on a selection: the next selection revision, of `selected_revision_id`.
unfoldable pub reselect {ℓ κ μ} :
    {K : Type ℓ} {P : Type κ} {X : Type μ} → String → String → X → Resource K P X → Resource K P X
reselect user_id revision_id state row = record row {
  selection = elim row.selection [
    | none ↦ none
    | some s ↦ some (record {
      revision = s.revision + 1;
      selected_revision_id = revision_id;
      updated_by_user_id = user_id;
      state = state;
    })
  ];
}

-- The `where` of the `updateMany` on a selection.
unfoldable pub is_hit {ℓ κ μ} :
    {K : Type ℓ} {P : Type κ} {X : Type μ} → (Resource K P X → Bool) → ℕ → Resource K P X → Bool
unfolding selected_at
is_hit matches expected row = matches row && selected_at expected row

-- `updateMany` on the selections of the rows that pass the test, refused unless it is exactly one.
unfoldable pub cas_selection {ℓ κ μ} :
    {K : Type ℓ} {P : Type κ} {X : Type μ}
    → (Resource K P X → Bool)
    → ℕ
    → (Resource K P X → Resource K P X)
    → List (Resource K P X)
    → Result LocalizationError (List (Resource K P X))
cas_selection matches expected change rows =
    if length (keep (is_hit matches expected) rows) == 1
    then ok (update (is_hit matches expected) change rows)
    else err selection_conflict

-- The primary key of the revisions of a kind.
unfoldable pub is_taken {ℓ κ μ} :
    {K : Type ℓ} {P : Type κ} {X : Type μ} → String → List (Resource K P X) → Bool
unfolding is_some
is_taken id [] = false
is_taken id (row ∷ rows) =
    let rest = is_taken id rows in
    if is_some (find (has_revision_id id) row.revisions) then true else rest

-- `create` of a revision of the resource `id`.
unfoldable pub add_revision {ℓ κ μ} :
    {K : Type ℓ} {P : Type κ} {X : Type μ}
    → String
    → Revision P
    → List (Resource K P X)
    → Result LocalizationError (List (Resource K P X))
add_revision id revision rows =
    if is_taken revision.id rows
    then err unique_violation
    else ok (
        update (λ row. str_eq row.id id)
          (λ row. record row { revisions = row.revisions ++ revision ∷ [] }) rows)

-- The row and its selection, or `error` where one of them is missing.
unfoldable pub require_selection {ℓ κ μ} :
    {K : Type ℓ} {P : Type κ} {X : Type μ}
    → LocalizationError
    → Option (Resource K P X)
    → Result LocalizationError (Resource K P X × Selection X)
require_selection error none = err error
require_selection error (some row) = elim row.selection [
  | none ↦ err error
  | some selection ↦ ok (row, selection)
]

-- The row that was found, or `error`.
unfoldable pub require {ℓ} :
    {A : Type ℓ} → LocalizationError → Option A → Result LocalizationError A
require error none = err error
require error (some a) = ok a
