-- ===== src/Localization/Versioned/Scenes.antt =====
-- The revisions of scenes, under an edit and a selection.
use voice_verse_ai.Common.{
  ℕ, ◌≡◌, refl, subst, ap, String, true, some, List, str_eq, inl, inr, ok, >>=-eq-ok, ok-injective,
  throw_if, Option-cases, arith,
}
use voice_verse_ai.Ingest.Types.{AccessContext}
use voice_verse_ai.Ingest.Tables.{find}
use voice_verse_ai.Ingest.Rows.{find-passes}
use voice_verse_ai.Localization.Types.{
  Scope, Revision, SceneContent, LocalizationScene, LocalizationAudit, Store, Resource,
  scene_not_found, scene_revision_not_found, no_scene_field, edit_without_change, already_active,
}
use voice_verse_ai.Localization.Versions.{
  is_owned, has_revision_id, selected_revision, next_revision_number, assert_expected_revision,
  add_revision, require_selection,
}
use voice_verse_ai.Localization.Access.{
  EditEnv, owned_track, scope_of, new_revision, SelectRevision,
}
use voice_verse_ai.Localization.Scene.{
  UpdateScene, SceneRevisionResponse, edited_scene, has_no_field, same_narrative,
  cas_scene_selection, write_scene, edit_scene, scene_revision, choose_scene,
}
use voice_verse_ai.Localization.Settled.{is_owned-eq}
use voice_verse_ai.Localization.Writes.{require-eq, require_selection-eq}
use voice_verse_ai.Localization.Versioned.{AreVersioned}
use voice_verse_ai.Localization.Versioned.Steps.{select_new-AreVersioned, select_old-AreVersioned}

pub is_owned-id {ℓ κ μ} :
    {K : Type ℓ} {P : Type κ} {X : Type μ} (id : String) (scope : Scope) (row : Resource K P X)
    → is_owned id scope row ≡ true
    → str_eq row.id id ≡ true
unfolding is_owned
is_owned-id id scope row h = ground arith

abbrev Written : Type 0
Written = List LocalizationScene × LocalizationAudit × SceneRevisionResponse

module _ (context : AccessContext) (project_id track_id scene_id : String) (store : Store)
    (are : AreVersioned store.scenes) where
  write_scene-AreVersioned :
      (env : EditEnv) (scope : Scope) (expected : ℕ) (row : LocalizationScene)
      (content : SceneContent) {rows : List LocalizationScene} {entry : LocalizationAudit}
      {answer : SceneRevisionResponse}
      → find (is_owned scene_id scope) store.scenes ≡ some row
      → write_scene env context scope scene_id expected
          (new_revision env context (next_revision_number row.revisions) content)
          store
        ≡ ok (rows, entry, answer)
      → AreVersioned rows
  unfolding write_scene cas_scene_selection new_revision
  write_scene-AreVersioned env scope expected row content found h =
      let revision = new_revision env context (next_revision_number row.revisions) content in
      let (added, adds, h1) = >>=-eq-ok (add_revision scene_id revision store.scenes) _ h in
      let (chosen, cas, done) =
        >>=-eq-ok (cas_scene_selection context scope scene_id revision.id expected added) _ h1 in
      subst AreVersioned (ap (λ (x : Written). x.0) (ok-injective done)) (
        select_new-AreVersioned (is_owned scene_id scope) (is_owned scene_id scope) scene_id row
          store.scenes found (is_owned-eq scene_id scope row (find-passes _ store.scenes found)).0
          (λ x hit. is_owned-id scene_id scope x hit) are expected context.user_id tt revision refl
          adds cas)

  pub edit_scene-AreVersioned :
      (env : EditEnv) (input : UpdateScene) {rows : List LocalizationScene}
      {entry : LocalizationAudit} {answer : SceneRevisionResponse}
      → edit_scene env context project_id track_id scene_id input store ≡ ok (rows, entry, answer)
      → AreVersioned rows
  unfolding edit_scene
  edit_scene-AreVersioned env input h =
      let (track, _, h1) = >>=-eq-ok (owned_track context project_id track_id store) _ h in
      let scope = scope_of context project_id track in
      let there = find (is_owned scene_id scope) store.scenes in
      let (found, selects, h2) = >>=-eq-ok (require_selection scene_not_found there) _ h1 in
      let (_, _, h3) =
        >>=-eq-ok (assert_expected_revision found.1.revision input.expected_revision) _ h2 in
      let (current, _, h4) = >>=-eq-ok (selected_revision found.0.revisions found.1) _ h3 in
      let (_, _, h5) = >>=-eq-ok (throw_if (has_no_field input) no_scene_field) _ h4 in
      let (_, _, h6) =
        >>=-eq-ok
          (throw_if (same_narrative (edited_scene env.nfc input current.content) current.content)
            edit_without_change)
          _ h5 in
      write_scene-AreVersioned env scope input.expected_revision found.0
        (edited_scene env.nfc input current.content)
        (require_selection-eq scene_not_found there selects).0 h6

  scene_revision-eq :
      (revision_id : String) (scope : Scope) {r : Revision SceneContent}
      → scene_revision scene_id revision_id scope store.scenes ≡ ok r
      → (row : LocalizationScene) × (find (is_owned scene_id scope) store.scenes ≡ some row)
        × (find (has_revision_id revision_id) row.revisions ≡ some r)
  unfolding scene_revision
  scene_revision-eq revision_id scope h =
      elim (Option-cases (find (is_owned scene_id scope) store.scenes)) [
        | inl e ↦ cc (rw (e, scene_revision) at h)
        | inr (row, e) ↦
            (row, e, require-eq scene_revision_not_found _ (rw (e, scene_revision) at h))
      ]

  pub choose_scene-AreVersioned :
      (input : SelectRevision) {rows : List LocalizationScene} {entry : LocalizationAudit}
      {answer : SceneRevisionResponse}
      → choose_scene context project_id track_id scene_id input store ≡ ok (rows, entry, answer)
      → AreVersioned rows
  unfolding choose_scene cas_scene_selection
  choose_scene-AreVersioned input h =
      let (track, _, h1) = >>=-eq-ok (owned_track context project_id track_id store) _ h in
      let scope = scope_of context project_id track in
      let (r, reads, h2) =
        >>=-eq-ok (scene_revision scene_id input.revision_id scope store.scenes) _ h1 in
      let there = find (is_owned scene_id scope) store.scenes in
      let (found, _, h3) = >>=-eq-ok (require_selection scene_not_found there) _ h2 in
      let (_, _, h4) =
        >>=-eq-ok (assert_expected_revision found.1.revision input.expected_revision) _ h3 in
      let (_, _, h5) =
        >>=-eq-ok (throw_if (str_eq found.1.selected_revision_id r.id) already_active) _ h4 in
      let (chosen, cas, done) =
        >>=-eq-ok
          (cas_scene_selection context scope scene_id r.id input.expected_revision store.scenes) _
          h5 in
      let (row, is, has) = scene_revision-eq input.revision_id scope reads in
      subst AreVersioned (ap (λ (x : Written). x.0) (ok-injective done)) (
        select_old-AreVersioned (is_owned scene_id scope) (is_owned scene_id scope) scene_id row
          store.scenes is (is_owned-eq scene_id scope row (find-passes _ store.scenes is)).0
          (λ x hit. is_owned-id scene_id scope x hit) are input.expected_revision context.user_id tt
          (has_revision_id input.revision_id) r has cas)
