-- ===== src/Localization/Versioned/Sources.antt =====
-- The revisions of source texts and of translations, under an edit and a selection of a source text.
use voice_verse_ai.Common.{
  ℕ, ◌≡◌, refl, subst, ap, String, some, List, str_eq, inl, inr, ok, >>=-eq-ok, ok-injective,
  throw_if, Option-cases,
}
use voice_verse_ai.Ingest.Types.{AccessContext}
use voice_verse_ai.Ingest.Tables.{find}
use voice_verse_ai.Ingest.Rows.{find-passes}
use voice_verse_ai.Localization.Types.{
  Scope, Revision, LocalizedDialogue, DialogueTranslation, LocalizationAudit, Store,
  source_not_found, source_revision_not_found, dialogue_not_found, edit_without_change,
  already_active,
}
use voice_verse_ai.Localization.Versions.{
  is_owned, has_revision_id, selected_revision, next_revision_number, assert_expected_revision,
  add_revision, require_selection, require,
}
use voice_verse_ai.Localization.Access.{
  EditEnv, owned_track, scope_of, new_revision, SelectRevision,
}
use voice_verse_ai.Localization.Source.{
  SourceTables, SourceRevisionResponse, cas_source_selection, is_translation_of, reopen,
  reopen_translations_after_source_change, activate_source, write_source, edit_source,
  choose_source, owned_dialogue,
}
use voice_verse_ai.Localization.Settled.{is_owned-eq}
use voice_verse_ai.Localization.Writes.{require-eq}
use voice_verse_ai.Localization.Versioned.{AreVersioned, IsVersioned, update-AreVersioned}
use voice_verse_ai.Localization.Versioned.Steps.{select_new-AreVersioned, select_old-AreVersioned}
use voice_verse_ai.Localization.Versioned.Scenes.{is_owned-id}

-- Both tables that the transaction writes.
abbrev pub AreBothVersioned : SourceTables → Type 0
AreBothVersioned tables = AreVersioned tables.0 × AreVersioned tables.1

reopen-IsVersioned :
    (user_id : String) (t : DialogueTranslation) → IsVersioned t → IsVersioned (reopen user_id t)
unfolding reopen
reopen-IsVersioned user_id t (numbered, selected) = (
  numbered,
  λ s e. elim (Option-cases t.selection) [
    | inl o ↦ cc (rw o at e)
    | inr (s', o) ↦
        (let kept : s'.selected_revision_id ≡ s.selected_revision_id = cc (rw o at e) in
          subst (λ k. (r : _) × (find (has_revision_id k) t.revisions ≡ some r)) kept
            (selected s' o))
  ],
)

module _ (context : AccessContext) (project_id track_id dialogue_id : String) (store : Store)
    (are : AreVersioned store.dialogues) (translations : AreVersioned store.translations) where
  activate-AreVersioned :
      (scope : Scope) (action : String) (expected : ℕ) (revision : Revision String)
      (added : List LocalizedDialogue)
      → ((dialogues : List LocalizedDialogue)
          → cas_source_selection context scope dialogue_id revision.id expected added ≡ ok dialogues
          → AreVersioned dialogues)
      → {tables : SourceTables} {entry : LocalizationAudit} {answer : SourceRevisionResponse}
      → activate_source context scope dialogue_id action expected revision added store
        ≡ ok (tables, entry, answer)
      → AreBothVersioned tables
  unfolding activate_source reopen_translations_after_source_change reopen
  activate-AreVersioned scope action expected revision added selects h =
      let (dialogues, cas, done) =
        >>=-eq-ok (cas_source_selection context scope dialogue_id revision.id expected added) _ h in
      subst AreBothVersioned
        (ap (λ (x : SourceTables × LocalizationAudit × SourceRevisionResponse). x.0)
          (ok-injective done))
        (
          selects dialogues cas,
          update-AreVersioned (is_translation_of scope dialogue_id) (reopen context.user_id)
              store.translations (λ _. refl) (λ t v. reopen-IsVersioned context.user_id t v)
              translations,
        )

  pub edit_source-AreVersioned :
      (env : EditEnv) (text : String) (expected : ℕ) {tables : SourceTables}
      {entry : LocalizationAudit} {answer : SourceRevisionResponse}
      → edit_source env context project_id track_id dialogue_id text expected store
        ≡ ok (tables, entry, answer)
      → AreBothVersioned tables
  unfolding edit_source write_source owned_dialogue cas_source_selection new_revision
  edit_source-AreVersioned env text expected h =
      let (track, _, h1) = >>=-eq-ok (owned_track context project_id track_id store) _ h in
      let scope = scope_of context project_id track in
      let (d, has, h2) = >>=-eq-ok (owned_dialogue scope dialogue_id store) _ h1 in
      let (found, _, h3) = >>=-eq-ok (require_selection source_not_found (some d)) _ h2 in
      let (_, _, h4) = >>=-eq-ok (assert_expected_revision found.1.revision expected) _ h3 in
      let (current, _, h5) = >>=-eq-ok (selected_revision d.revisions found.1) _ h4 in
      let (_, _, h6) =
        >>=-eq-ok (throw_if (str_eq current.content text) edit_without_change) _ h5 in
      let revision = new_revision env context (next_revision_number d.revisions) text in
      let (added, adds, h7) = >>=-eq-ok (add_revision dialogue_id revision store.dialogues) _ h6 in
      let is = require-eq dialogue_not_found _ has in
      activate-AreVersioned scope "localization.dialogue.source_revision.created" expected revision
        added
        (λ dialogues cas.
          select_new-AreVersioned (is_owned dialogue_id scope) (is_owned dialogue_id scope)
            dialogue_id d store.dialogues is
            (is_owned-eq dialogue_id scope d (find-passes _ store.dialogues is)).0
            (λ x hit. is_owned-id dialogue_id scope x hit) are expected context.user_id tt revision
            refl adds cas)
        h7

  pub choose_source-AreVersioned :
      (input : SelectRevision) {tables : SourceTables} {entry : LocalizationAudit}
      {answer : SourceRevisionResponse}
      → choose_source context project_id track_id dialogue_id input store
        ≡ ok (tables, entry, answer)
      → AreBothVersioned tables
  unfolding choose_source owned_dialogue cas_source_selection
  choose_source-AreVersioned input h =
      let (track, _, h1) = >>=-eq-ok (owned_track context project_id track_id store) _ h in
      let scope = scope_of context project_id track in
      let (d, has, h2) = >>=-eq-ok (owned_dialogue scope dialogue_id store) _ h1 in
      let (found, _, h3) = >>=-eq-ok (require_selection source_not_found (some d)) _ h2 in
      let there = find (has_revision_id input.revision_id) d.revisions in
      let (r, reads, h4) = >>=-eq-ok (require source_revision_not_found there) _ h3 in
      let (_, _, h5) =
        >>=-eq-ok (assert_expected_revision found.1.revision input.expected_revision) _ h4 in
      let (_, _, h6) =
        >>=-eq-ok (throw_if (str_eq found.1.selected_revision_id r.id) already_active) _ h5 in
      let is = require-eq dialogue_not_found _ has in
      activate-AreVersioned scope "localization.dialogue.source_selection.changed"
        input.expected_revision r store.dialogues
        (λ dialogues cas.
          select_old-AreVersioned (is_owned dialogue_id scope) (is_owned dialogue_id scope)
            dialogue_id d store.dialogues is
            (is_owned-eq dialogue_id scope d (find-passes _ store.dialogues is)).0
            (λ x hit. is_owned-id dialogue_id scope x hit) are input.expected_revision
            context.user_id tt (has_revision_id input.revision_id) r
            (require-eq source_revision_not_found there reads) cas)
        h6
