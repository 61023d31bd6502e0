-- ===== src/Localization/Versioned/Translations.antt =====
-- The revisions of translations, under an edit, a selection and a change of state.
use text.Mathlib.TextPositions.{eq_refl}
use voice_verse_ai.Common.{
  ℕ, ◌≡◌, refl, subst, String, Bool, true, ◌&&◌, some, none, List, [], ◌∷◌, str_eq, ◌==◌, inl, inr,
  Option, ok, >>=-eq-ok, ok-injective, throw_if, All, All-append, Option-cases, Bool-cases, arith,
}
use voice_verse_ai.Ingest.Types.{AccessContext}
use voice_verse_ai.Ingest.Tables.{find}
use voice_verse_ai.Ingest.Rows.{find-append_new}
use voice_verse_ai.Ingest.Create.{is_some}
use voice_verse_ai.Localization.Types.{
  Scope, same_scope, Revision, DialogueTranslation, TranslationContent, TranslationEditorState,
  draft, LocalizationAudit, Store, source_not_found, translation_not_found,
  translation_revision_not_found, edit_without_change, already_active, active_source_changed,
}
use voice_verse_ai.Localization.Versions.{
  has_revision_id, selected_revision, assert_expected_revision, reselect, cas_selection,
  add_revision, require_selection, require, is_hit,
}
use voice_verse_ai.Localization.Access.{
  EditEnv, owned_track, scope_of, new_revision, SelectRevision,
}
use voice_verse_ai.Localization.Source.{owned_dialogue}
use voice_verse_ai.Localization.Translation.{
  TranslationRevisionResponse, is_of_track, is_owned_translation, new_translation,
  has_translation_id, selection_revision_of, has_active_text, ensure_translation, create_selection,
}
use voice_verse_ai.Localization.Translation.Edit.{
  activate_translation, translation_revision, write_translation, edit_translation,
  choose_translation,
}
use voice_verse_ai.Localization.Review.{
  is_outdated, active_source_id, move_state, assert_editor_state_transition, UpdateState,
  change_state,
}
use voice_verse_ai.Localization.Keyed.{AreKeyed-append}
use voice_verse_ai.Localization.Writes.{require-eq, require_selection-eq, cas_selection-eq}
use voice_verse_ai.Localization.Sound.Reviews.{rows_of}
use voice_verse_ai.Localization.Versioned.{
  AreVersioned, IsVersioned, HasRevision, row_key, select-AreVersioned, update-AreVersioned,
  add_revision-HasRevision,
}
use voice_verse_ai.Localization.Versioned.Steps.{
  add-AreVersioned, select_new-AreVersioned, select_old-AreVersioned,
}

owned_id :
    (id track_id : String) (context : AccessContext) (project_id : String) (t : DialogueTranslation)
    → is_owned_translation id track_id context project_id t ≡ true
    → str_eq t.id id ≡ true
unfolding is_owned_translation
owned_id id track_id context project_id t h = ground arith

move_state-IsVersioned :
    (user_id : String) (state : TranslationEditorState) (t : DialogueTranslation)
    → IsVersioned t
    → IsVersioned (move_state user_id state t)
unfolding move_state
move_state-IsVersioned user_id state t (numbered, selected) = (
  numbered,
  λ s e. elim (Option-cases t.selection) [
    | inl o ↦ cc (rw o at e)
    | inr (s', o) ↦
        (let kept : s'.selected_revision_id ≡ s.selected_revision_id = cc (rw o at e) in
          subst (HasRevision t.revisions) kept (selected s' o))
  ],
)

module _ (context : AccessContext) (project_id track_id dialogue_id : String) (store : Store)
    (are : AreVersioned store.translations) where
  pub change_state-AreVersioned :
      (input : UpdateState) {rows : List DialogueTranslation} {entry : LocalizationAudit}
      {answer : TranslationRevisionResponse}
      → change_state context project_id track_id dialogue_id input store ≡ ok (rows, entry, answer)
      → AreVersioned rows
  unfolding change_state move_state
  change_state-AreVersioned input h =
      let (track, _, h1) = >>=-eq-ok (owned_track context project_id track_id store) _ h in
      let (d, _, h2) = >>=-eq-ok (owned_dialogue _ dialogue_id store) _ h1 in
      let there = find (is_of_track track_id dialogue_id) store.translations in
      let (found, _, h3) = >>=-eq-ok (require_selection translation_not_found there) _ h2 in
      let (_, _, h4) =
        >>=-eq-ok (assert_expected_revision found.1.revision input.expected_revision) _ h3 in
      let (_, _, h5) = >>=-eq-ok (assert_editor_state_transition found.1.state input.state) _ h4 in
      let (r, _, h6) = >>=-eq-ok (selected_revision found.0.revisions found.1) _ h5 in
      let source = some r.content.source_dialogue_revision_id in
      let (_, _, h7) =
        >>=-eq-ok
          (throw_if (is_outdated input.state source (active_source_id d)) active_source_changed) _
          h6 in
      let matches = is_owned_translation found.0.id track_id context project_id in
      let change = move_state context.user_id input.state in
      let (moved, cas, done) =
        >>=-eq-ok (cas_selection matches input.expected_revision change store.translations) _ h7 in
      subst AreVersioned (rows_of done) (
        subst AreVersioned
          (cas_selection-eq matches input.expected_revision change store.translations cas).1
          (update-AreVersioned (is_hit matches input.expected_revision) change store.translations
            (λ _. refl) (λ t v. move_state-IsVersioned context.user_id input.state t v) are))

  pub choose_translation-AreVersioned :
      (input : SelectRevision) {rows : List DialogueTranslation} {entry : LocalizationAudit}
      {answer : TranslationRevisionResponse}
      → choose_translation context project_id track_id dialogue_id input store
        ≡ ok (rows, entry, answer)
      → AreVersioned rows
  unfolding choose_translation
  choose_translation-AreVersioned input h =
      let (track, _, h1) = >>=-eq-ok (owned_track context project_id track_id store) _ h in
      let (_, _, h2) = >>=-eq-ok (owned_dialogue _ dialogue_id store) _ h1 in
      let there = find (is_of_track track_id dialogue_id) store.translations in
      let (found, selects, h3) = >>=-eq-ok (require_selection translation_not_found there) _ h2 in
      let q : Revision TranslationContent → Bool = λ r.
        has_revision_id input.revision_id r
        && same_scope found.0.scope (scope_of context project_id track) in
      let (r, reads, h4) =
        >>=-eq-ok (require translation_revision_not_found (find q found.0.revisions)) _ h3 in
      let (_, _, h5) =
        >>=-eq-ok (assert_expected_revision found.1.revision input.expected_revision) _ h4 in
      let (_, _, h6) =
        >>=-eq-ok (throw_if (str_eq found.1.selected_revision_id r.id) already_active) _ h5 in
      let matches = is_owned_translation found.0.id track_id context project_id in
      let (chosen, cas, done) =
        >>=-eq-ok
          (cas_selection matches input.expected_revision (reselect context.user_id r.id draft)
            store.translations)
          _ h6 in
      subst AreVersioned (rows_of done) (
        select_old-AreVersioned matches (is_of_track track_id dialogue_id) found.0.id found.0
          store.translations (require_selection-eq translation_not_found there selects).0 refl
          (λ x hit. owned_id found.0.id track_id context project_id x hit) are
          input.expected_revision context.user_id draft q r
          (require-eq translation_revision_not_found _ reads) cas)

  create_selection-AreVersioned :
      (id revision_id : String) (rows : List DialogueTranslation) {rows' : List DialogueTranslation}
      → create_selection context id revision_id rows ≡ ok rows'
      → All (λ x. str_eq x.id id ≡ true → HasRevision x.revisions revision_id) rows
      → AreVersioned rows
      → AreVersioned rows'
  unfolding create_selection
  create_selection-AreVersioned id revision_id rows h there versioned =
      elim (Option-cases (find (has_translation_id id) rows)) [
        | inl e ↦ cc (rw (e, create_selection) at h)
        | inr (t, e) ↦ elim (Bool-cases (is_some t.selection)) [
          | inl u ↦ cc (rw (e, create_selection, u) at h)
          | inr u ↦ subst AreVersioned (ok-injective (rw (e, create_selection, u) at h)) (
              select-AreVersioned (has_translation_id id) revision_id _ rows
                (λ _ s chosen. cc chosen) there versioned)
        ]
      ]

  write_translation-AreVersioned :
      (env : EditEnv) (source_id text : String) (expected : ℕ) (p : DialogueTranslation → Bool)
      (t : DialogueTranslation) (rows : List DialogueTranslation) {rows' : List DialogueTranslation}
      {entry : LocalizationAudit} {answer : TranslationRevisionResponse}
      → find p rows ≡ some t
      → AreVersioned rows
      → write_translation env context project_id source_id text expected (t, rows)
        ≡ ok (rows', entry, answer)
      → AreVersioned rows'
  unfolding write_translation activate_translation new_revision
  write_translation-AreVersioned env source_id text expected p t rows {rows'} found versioned h =
      let revision = translation_revision env context source_id text t in
      let matches = is_owned_translation t.id t.owner.track_id context project_id in
      let (added, adds, h1) = >>=-eq-ok (add_revision t.id revision rows) _ h in
      let (chosen, chooses, done) =
        >>=-eq-ok
          (activate_translation context project_id t.owner.track_id t.id expected env.revision_id
            added)
          _ h1 in
      subst AreVersioned (rows_of done) (elim (Bool-cases (expected == 0)) [
        | inl e ↦
            create_selection-AreVersioned t.id env.revision_id added
              (rw (e, activate_translation) at chooses)
              (add_revision-HasRevision t.id revision rows adds)
              (add-AreVersioned matches p t.id t rows found refl
                (λ x hit. owned_id t.id t.owner.track_id context project_id x hit) versioned
                revision refl adds)
        | inr e ↦
            select_new-AreVersioned matches p t.id t rows found refl
              (λ x hit. owned_id t.id t.owner.track_id context project_id x hit) versioned expected
              context.user_id draft revision refl adds (rw (e, activate_translation) at chooses)
      ])

  -- The row that is written is in the table.
  abbrev Ensured : DialogueTranslation × List DialogueTranslation → Type 0
  Ensured made =
      ((p : DialogueTranslation → Bool) × (find p made.1 ≡ some made.0)) × AreVersioned made.1

  ensure_translation-Ensured :
      (fresh : DialogueTranslation)
      → IsVersioned fresh
      → (o : Option DialogueTranslation)
      → find (is_of_track track_id dialogue_id) store.translations ≡ o
      → {made : DialogueTranslation × List DialogueTranslation}
      → ensure_translation fresh o store.translations ≡ ok made
      → Ensured made
  unfolding ensure_translation is_some
  ensure_translation-Ensured fresh versioned (some u) is h =
      subst Ensured (ok-injective h) ((is_of_track track_id dialogue_id, is), are)
  ensure_translation-Ensured fresh versioned none is h =
      elim (Option-cases (find (has_translation_id fresh.id) store.translations)) [
        | inr (_, e) ↦ cc (rw e at h)
        | inl e ↦ subst Ensured (ok-injective (rw e at h)) (
          (
            has_translation_id fresh.id,
            find-append_new (has_translation_id fresh.id) store.translations fresh e
                (eq_refl fresh.id),
          ),
          record {
            keyed = AreKeyed-append row_key store.translations fresh e are.keyed;
            versioned =
                All-append IsVersioned store.translations (fresh ∷ []) are.versioned
                  (versioned, tt);
          },
        )
      ]

  new_translation-IsVersioned :
      (scope : Scope) (id : String)
      → IsVersioned (new_translation context scope id track_id dialogue_id)
  unfolding new_translation
  new_translation-IsVersioned scope id = ((tt, tt), λ s e. cc e)

  pub edit_translation-AreVersioned :
      (env : EditEnv) (id text : String) (expected : ℕ) {rows : List DialogueTranslation}
      {entry : LocalizationAudit} {answer : TranslationRevisionResponse}
      → edit_translation env id context project_id track_id dialogue_id text expected store
        ≡ ok (rows, entry, answer)
      → AreVersioned rows
  unfolding edit_translation
  edit_translation-AreVersioned env id text expected h =
      let (track, _, h1) = >>=-eq-ok (owned_track context project_id track_id store) _ h in
      let scope = scope_of context project_id track in
      let (d, _, h2) = >>=-eq-ok (owned_dialogue scope dialogue_id store) _ h1 in
      let (source, _, h3) = >>=-eq-ok (require_selection source_not_found (some d)) _ h2 in
      let there = find (is_of_track track_id dialogue_id) store.translations in
      let (_, _, h4) =
        >>=-eq-ok (assert_expected_revision (selection_revision_of there) expected) _ h3 in
      let (same, _, h5) = >>=-eq-ok (has_active_text text there) _ h4 in
      let (_, _, h6) = >>=-eq-ok (throw_if same edit_without_change) _ h5 in
      let fresh = new_translation context scope id track_id dialogue_id in
      let (made, makes, h7) = >>=-eq-ok (ensure_translation fresh there store.translations) _ h6 in
      let ((p, found), versioned) =
        ensure_translation-Ensured fresh (new_translation-IsVersioned scope id) there refl makes in
      write_translation-AreVersioned env source.1.selected_revision_id text expected p made.0 made.1
        found versioned h7
