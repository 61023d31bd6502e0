-- ===== src/Localization/Stale.antt =====
-- Edits of a source text against a selection that is no longer the one the editor saw.
use voice_verse_ai.Common.{
  ℕ, suc, ◌+◌, ◌≡◌, refl, sym, subst, ap, ◌∙◌, String, Bool, true, false, inl, inr, ◌⊎◌, none, some,
  Option, List, [], ◌∷◌, ◌++◌, str_eq, eq_iff, if◌then◌else◌, ==_iff, Option-cases, Result, ok, err,
  ◌>>=◌, ◌>>◌, >>=-eq-ok, throw_if, throw_if-eq-ok, ok-injective, not, ◌==◌, arith,
}
use voice_verse_ai.Ingest.Types.{AccessContext, OrganizationRole}
use voice_verse_ai.Ingest.Tables.{find, update}
use voice_verse_ai.Ingest.Rows.{find-passes}
use voice_verse_ai.Localization.Types.{
  Scope, Revision, Selection, Resource, LocalizedDialogue, LocalizationTrack, LocalizationAudit,
  Store, LocalizationError, dialogue_not_found, source_not_found, edit_without_change,
}
use voice_verse_ai.Localization.Versions.{
  is_owned, selected_at, reselect, is_hit, cas_selection, add_revision, require_selection, require,
  assert_expected_revision, selected_revision, next_revision_number,
}
use voice_verse_ai.Localization.Access.{
  EditEnv, assert_can_edit, assert_uuid, owned_track, is_owned_track, scope_of, commit, checked,
  new_revision, rethrow_write_conflict,
}
use voice_verse_ai.Localization.Values.{normalize_required_editorial_text}
use voice_verse_ai.Localization.Source.{
  SourceTables, SourceOutcome, SourceRevisionResponse, UpdateSource, owned_dialogue,
  cas_source_selection, activate_source, write_source, edit_source, put_sources,
  update_source_dialogue, reopen_translations_after_source_change,
}
use voice_verse_ai.Localization.Keyed.{find-update_any, if-cases}
use voice_verse_ai.Localization.Writes.{
  require-eq, require_selection-eq, add_revision-eq, cas_selection-eq,
}
pub mod Sources

module _ {ℓ κ μ} {K : Type ℓ} {P : Type κ} {X : Type μ} where
  -- The row that the test finds has the selection revision `n`.
  abbrev pub IsSelectedAt : (Resource K P X → Bool) → ℕ → List (Resource K P X) → Type (ℓ ⊔ κ ⊔ μ)
  IsSelectedAt p n rows =
      (row : Resource K P X) × (find p rows ≡ some row) × (selected_at n row ≡ true)

  pub selected_at-of :
      (row : Resource K P X) (s : Selection X) (n : ℕ)
      → row.selection ≡ some s
      → (s.revision == n) ≡ true
      → selected_at n row ≡ true
  unfolding selected_at
  selected_at-of row s n e h = rw (e, selected_at) h

  selected_at-once :
      (row : Resource K P X) (m n : ℕ) → selected_at m row ≡ true → selected_at n row ≡ true → m ≡ n
  unfolding selected_at
  selected_at-once row m n h k = elim (Option-cases row.selection) [
    | inl e ↦ cc (rw (e, selected_at) at h)
    | inr (s, e) ↦
        sym ((==_iff s.revision m).0 (rw (e, selected_at) at h))
        ∙ (==_iff s.revision n).0 (rw (e, selected_at) at k)
  ]

  reselect-selected_at :
      (user_id revision_id : String) (state : X) (row : Resource K P X) (n : ℕ)
      → selected_at n row ≡ true
      → selected_at (n + 1) (reselect user_id revision_id state row) ≡ true
  unfolding selected_at reselect
  reselect-selected_at user_id revision_id state row n h = elim (Option-cases row.selection) [
    | inl e ↦ cc (rw (e, selected_at) at h)
    | inr (s, e) ↦
        rw (e, reselect)
          ((==_iff (s.revision + 1) (n + 1)).1
            (ap (λ k. k + 1) ((==_iff s.revision n).0 (rw (e, selected_at) at h))))
  ]

  -- The row that is found cannot be at two selection revisions.
  pub IsSelectedAt-once :
      (p : Resource K P X → Bool) (m n : ℕ) (rows : List (Resource K P X))
      → IsSelectedAt p m rows
      → IsSelectedAt p n rows
      → m ≡ n
  IsSelectedAt-once p m n rows (a, found, h) (b, found', k) =
      let same : a ≡ b = cc (found, found') in
      selected_at-once b m n (subst (λ r. selected_at m r ≡ true) same h) k

  pub cas_selection-IsSelectedAt :
      (p : Resource K P X → Bool) (expected : ℕ) (user_id revision_id : String) (state : X)
      (rows : List (Resource K P X)) {after : List (Resource K P X)}
      → ((row : Resource K P X) → p (reselect user_id revision_id state row) ≡ p row)
      → IsSelectedAt p expected rows
      → cas_selection p expected (reselect user_id revision_id state) rows ≡ ok after
      → IsSelectedAt p (expected + 1) after
  unfolding is_hit
  cas_selection-IsSelectedAt p expected user_id revision_id state rows {after} keeps (row, found, h)
        cas =
      let change = reselect user_id revision_id state in
      let hit : is_hit p expected row ≡ true = rw (find-passes p rows found, h) refl in
      let changed : find p (update (is_hit p expected) change rows) ≡ some (change row) =
        find-update_any p (is_hit p expected) change keeps rows found
        ∙ ap (λ b. some (if b then change row else row)) hit in
      (
        change row,
        subst (λ rs. find p rs ≡ some (change row)) (cas_selection-eq p expected change rows cas).1
            changed,
        reselect-selected_at user_id revision_id state row expected h,
      )

  pub add_revision-IsSelectedAt :
      (p : Resource K P X → Bool) (n : ℕ) (id : String) (revision : Revision P)
      (rows : List (Resource K P X)) {added : List (Resource K P X)}
      → ((row : Resource K P X)
          → p (record row { revisions = row.revisions ++ revision ∷ [] }) ≡ p row)
      → IsSelectedAt p n rows
      → add_revision id revision rows ≡ ok added
      → IsSelectedAt p n added
  unfolding selected_at
  add_revision-IsSelectedAt p n id revision rows {added} keeps (row, found, h) adds =
      let q : Resource K P X → Bool = λ x. str_eq x.id id in
      let f : Resource K P X → Resource K P X =
        λ x. record x { revisions = x.revisions ++ revision ∷ [] } in
      (
        if q row then f row else row,
        subst (λ rs. find p rs ≡ some (if q row then f row else row))
            (add_revision-eq id revision rows adds).1 (find-update_any p q f keeps rows found),
        if-cases (λ x. selected_at n x ≡ true) (q row) (f row) row (λ _. h) (λ _. h),
      )
