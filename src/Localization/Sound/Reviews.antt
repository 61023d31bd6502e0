-- ===== src/Localization/Sound/Reviews.antt =====
-- What the three transactions on a translation keep.
use voice_verse_ai.Common.{
  ℕ, ◌+◌, ◌≡◌, ◌≢◌, refl, sym, subst, ap, ◌∙◌, String, Bool, false, ◌&&◌, some, List, str_eq,
  eq_iff, text_eq_iff, Option, Result, ok, >>=-eq-ok, ok-injective, throw_if, throw_if-eq-ok,
  All-map, All-map2, arith,
}
use voice_verse_ai.Ingest.Types.{AccessContext}
use voice_verse_ai.Ingest.Tables.{find, update}
use voice_verse_ai.Ingest.Rows.{find-passes}
use voice_verse_ai.Localization.Types.{
  same_scope, Revision, Selection, LocalizedDialogue, DialogueTranslation, TranslationContent,
  TranslationEditorState, draft, LocalizationAudit, LocalizationTrack, Store, LocalizationError,
  source_not_found, translation_not_found, translation_revision_not_found, edit_without_change,
  already_active, active_source_changed,
}
use voice_verse_ai.Localization.Versions.{
  is_owned, is_hit, reselect, cas_selection, require_selection, require, assert_expected_revision,
  has_revision_id, selected_revision,
}
use voice_verse_ai.Localization.Access.{
  EditEnv, is_owned_track, owned_track, scope_of, SelectRevision,
}
use voice_verse_ai.Localization.Source.{owned_dialogue}
use voice_verse_ai.Localization.Translation.{
  TranslationRevisionResponse, is_of_track, is_owned_translation, new_translation,
  selection_revision_of, has_active_text, ensure_translation,
}
use voice_verse_ai.Localization.Translation.Edit.{edit_translation, choose_translation}
use voice_verse_ai.Localization.Review.{
  is_draft, is_outdated, active_source_id, move_state, assert_editor_state_transition, UpdateState,
  change_state,
}
use voice_verse_ai.Localization.Keyed.{
  All-update, if-cases, AreKeyed-update, AreKeyed-same, find-All,
}
use voice_verse_ai.Localization.Settled.{IsSettled, IsOfActiveSource}
use voice_verse_ai.Localization.Writes.{
  require-eq, require_selection-eq, cas_selection-eq, selected_revision-eq, owned_track-eq,
  scope_of-track,
}
use voice_verse_ai.Localization.Sound.{IsLinked, IsSound, track_key, translation_key}
use voice_verse_ai.Localization.Sound.Edits.{
  AreSound, AreSound-of, reselect-AreSound, write_translation-AreSound, ensure_translation-AreSound,
}

abbrev pub Answered : Type 0
Answered = List DialogueTranslation × LocalizationAudit × TranslationRevisionResponse

pub rows_of :
    {a b : Answered} → ◌≡◌ {A = Result LocalizationError Answered} (ok a) (ok b) → a.0 ≡ b.0
rows_of h = ap (λ (x : Answered). x.0) (ok-injective h)

module _ (context : AccessContext) (project_id track_id dialogue_id : String) (store : Store)
    (sound : IsSound store) where
  pub edit_translation-AreSound :
      (env : EditEnv) (id text : String) (expected : ℕ) {rows : List DialogueTranslation}
      {entry : LocalizationAudit} {answer : TranslationRevisionResponse}
      → edit_translation env id context project_id track_id dialogue_id text expected store
        ≡ ok (rows, entry, answer)
      → AreSound store rows
  unfolding edit_translation
  edit_translation-AreSound env id text expected h =
      let (track, owned, h1) = >>=-eq-ok (owned_track context project_id track_id store) _ h in
      let (dialogue, _, h2) = >>=-eq-ok (owned_dialogue _ dialogue_id store) _ h1 in
      let (source, _, h3) = >>=-eq-ok (require_selection source_not_found (some dialogue)) _ h2 in
      let there = find (is_of_track track_id dialogue_id) store.translations in
      let (_, _, h4) =
        >>=-eq-ok (assert_expected_revision (selection_revision_of there) expected) _ h3 in
      let (same, _, h5) = >>=-eq-ok (has_active_text text there) _ h4 in
      let (_, _, h6) = >>=-eq-ok (throw_if same edit_without_change) _ h5 in
      let (ensured, ensures, h7) =
        >>=-eq-ok
          (ensure_translation
            (new_translation context (scope_of context project_id track) id track_id dialogue_id)
            there store.translations)
          _ h6 in
      write_translation-AreSound store env context project_id source.1.selected_revision_id text
        expected ensured.0 ensured.1 h7
        (ensure_translation-AreSound store context project_id track_id dialogue_id id track sound
          (owned_track-eq context project_id track_id store owned) there ensures)

  pub choose_translation-AreSound :
      (input : SelectRevision) {rows : List DialogueTranslation} {entry : LocalizationAudit}
      {answer : TranslationRevisionResponse}
      → choose_translation context project_id track_id dialogue_id input store
        ≡ ok (rows, entry, answer)
      → AreSound store rows
  unfolding choose_translation
  choose_translation-AreSound input h =
      let (track, _, h1) = >>=-eq-ok (owned_track context project_id track_id store) _ h in
      let (_, _, h2) = >>=-eq-ok (owned_dialogue _ dialogue_id store) _ h1 in
      let there = find (is_of_track track_id dialogue_id) store.translations in
      let (found, _, h3) = >>=-eq-ok (require_selection translation_not_found there) _ h2 in
      let (revision, _, h4) =
        >>=-eq-ok
          (require translation_revision_not_found (
            find
              (λ (r : Revision TranslationContent).
                has_revision_id input.revision_id r
                && same_scope found.0.scope (scope_of context project_id track))
              found.0.revisions))
          _ h3 in
      let (_, _, h5) =
        >>=-eq-ok (assert_expected_revision found.1.revision input.expected_revision) _ h4 in
      let (_, _, h6) =
        >>=-eq-ok (throw_if (str_eq found.1.selected_revision_id revision.id) already_active) _
          h5 in
      let (chosen, cas, h7) =
        >>=-eq-ok
          (cas_selection (is_owned_translation found.0.id track_id context project_id)
            input.expected_revision (reselect context.user_id revision.id draft) store.translations)
          _ h6 in
      subst (AreSound store)
        ((cas_selection-eq _ input.expected_revision _ store.translations cas).1 ∙ rows_of h7)
        (reselect-AreSound store _ context.user_id revision.id store.translations
          (AreSound-of store sound))

  -- The row that is moved to a state, once the check has compared its source with the active one.
  move_state-IsSettled :
      (state : TranslationEditorState) (t : DialogueTranslation)
      (s : Selection TranslationEditorState)
      → t.selection ≡ some s
      → (state ≢ draft → IsOfActiveSource store.dialogues t s)
      → IsSettled store.dialogues (move_state context.user_id state t)
  unfolding move_state
  move_state-IsSettled state t s e active s' chosen reviewed = go s' (rw e at chosen) reviewed
    where
      go :
          (s' : Selection TranslationEditorState)
          → some (record s {
            revision = s.revision + 1;
            updated_by_user_id = context.user_id;
            state = state;
          })
            ≡ some s'
          → s'.state ≢ draft
          → IsOfActiveSource store.dialogues (move_state context.user_id state t) s'
      go s' chosen reviewed =
          let (d, r, found, selected, same) = active (λ k. reviewed (cc (k, chosen))) in
          let kept : s.selected_revision_id ≡ s'.selected_revision_id = cc chosen in
          (
            d,
            r,
            found,
            subst (λ k. find (has_revision_id k) t.revisions ≡ some r) kept selected,
            same,
          )

  up_to_date :
      (state : TranslationEditorState) (source active : Option String)
      → is_outdated state source active ≡ false
      → state ≢ draft
      → active ≡ source
  unfolding is_outdated is_draft
  up_to_date draft source active h reviewed = absurd (reviewed refl)
  up_to_date TranslationEditorState.in_review source active h reviewed =
      sym ((text_eq_iff source active).0 (ground arith))
  up_to_date TranslationEditorState.approved source active h reviewed =
      sym ((text_eq_iff source active).0 (ground arith))

  -- The translation of the track is in the scope of the request.
  of_track-scope :
      (track : LocalizationTrack) (t : DialogueTranslation)
      → find (is_owned_track context project_id track_id) store.tracks ≡ some track
      → find (is_of_track track_id dialogue_id) store.translations ≡ some t
      → (scope_of context project_id track ≡ t.scope)
        × (dialogue_id ≡ t.owner.localized_dialogue_id)
  of_track-scope track t owned there =
      let (scope, at) = scope_of-track context project_id track_id store owned in
      let passed = find-passes _ store.translations there in
      let (track', linked, same) =
        find-All (IsLinked store.tracks) _ store.translations sound.linked there in
      let keyed : find (λ x. str_eq (track_key x) track.id) store.tracks ≡ some track =
        find-All (λ x. find (λ y. str_eq (track_key y) (track_key x)) store.tracks ≡ some x) _
          store.tracks sound.tracks_keyed owned in
      let of : t.owner.track_id ≡ track_id = ground (arith, eq_iff t.owner.track_id track_id) in
      let one : track ≡ track' = cc (
        subst (λ k. find (λ x. str_eq (track_key x) k) store.tracks ≡ some track) (at ∙ sym of)
            keyed,
        linked,
      ) in
      (
        scope ∙ ap (λ (x : LocalizationTrack). x.scope) one ∙ sym same,
        ground (arith, eq_iff t.owner.localized_dialogue_id dialogue_id),
      )

  found_dialogue :
      (track : LocalizationTrack) (t : DialogueTranslation) (d : LocalizedDialogue)
      → find (is_owned_track context project_id track_id) store.tracks ≡ some track
      → find (is_of_track track_id dialogue_id) store.translations ≡ some t
      → owned_dialogue (scope_of context project_id track) dialogue_id store ≡ ok d
      → find (is_owned t.owner.localized_dialogue_id t.scope) store.dialogues ≡ some d
  unfolding owned_dialogue
  found_dialogue track t d owned there has_dialogue =
      let (scope, id) = of_track-scope track t owned there in
      subst (λ k. find (is_owned k t.scope) store.dialogues ≡ some d) id
        (subst (λ k. find (is_owned dialogue_id k) store.dialogues ≡ some d) scope
          (require-eq _ _ has_dialogue))

  move_state-AreSound :
      (expected : ℕ) (state : TranslationEditorState) (p : DialogueTranslation → Bool)
      (t : DialogueTranslation)
      → find p store.translations ≡ some t
      → IsSettled store.dialogues (move_state context.user_id state t)
      → AreSound store (
          update
            (is_hit (is_owned_translation t.id track_id context project_id) expected)
            (move_state context.user_id state)
            store.translations)
  unfolding move_state is_hit is_owned_translation
  move_state-AreSound expected state p t there settled = record {
    keyed =
        AreKeyed-update translation_key _ _ store.translations (λ _. refl) sound.translations_keyed;
    linked = All-update _ _ _ store.translations (
        All-map
          (λ x h.
            if-cases (IsLinked store.tracks) _ (move_state context.user_id state x) x (λ _. h)
              (λ _. h))
          store.translations sound.linked);
    settled = All-update _ _ _ store.translations (
        All-map2
          (λ x old same.
            if-cases (IsSettled store.dialogues) _ (move_state context.user_id state x) x
              (λ hit.
                subst (λ y. IsSettled store.dialogues (move_state context.user_id state y))
                  (sym (same (ground arith))) settled)
              (λ _. old))
          store.translations sound.settled
          (AreKeyed-same translation_key p store.translations sound.translations_keyed there));
  }

  pub change_state-AreSound :
      (input : UpdateState) {rows : List DialogueTranslation} {entry : LocalizationAudit}
      {answer : TranslationRevisionResponse}
      → change_state context project_id track_id dialogue_id input store ≡ ok (rows, entry, answer)
      → AreSound store rows
  unfolding change_state
  change_state-AreSound input h =
      let (track, owned, h1) = >>=-eq-ok (owned_track context project_id track_id store) _ h in
      let (d, has_dialogue, h2) = >>=-eq-ok (owned_dialogue _ dialogue_id store) _ h1 in
      let there = find (is_of_track track_id dialogue_id) store.translations in
      let (found, selects, h3) = >>=-eq-ok (require_selection translation_not_found there) _ h2 in
      let (_, _, h4) =
        >>=-eq-ok (assert_expected_revision found.1.revision input.expected_revision) _ h3 in
      let (_, _, h5) = >>=-eq-ok (assert_editor_state_transition found.1.state input.state) _ h4 in
      let (r, active, h6) = >>=-eq-ok (selected_revision found.0.revisions found.1) _ h5 in
      let source = some r.content.source_dialogue_revision_id in
      let (_, current, h7) =
        >>=-eq-ok
          (throw_if (is_outdated input.state source (active_source_id d)) active_source_changed) _
          h6 in
      let (moved, cas, h8) =
        >>=-eq-ok
          (cas_selection (is_owned_translation found.0.id track_id context project_id)
            input.expected_revision (move_state context.user_id input.state) store.translations)
          _ h7 in
      let (is, selected) = require_selection-eq translation_not_found there selects in
      subst (AreSound store)
        ((cas_selection-eq _ input.expected_revision _ store.translations cas).1 ∙ rows_of h8)
        (move_state-AreSound input.expected_revision input.state (is_of_track track_id dialogue_id)
          found.0 is
          (move_state-IsSettled input.state found.0 found.1 selected (λ reviewed. (
            d,
            r,
            found_dialogue track found.0 d (owned_track-eq context project_id track_id store owned)
                is has_dialogue,
            selected_revision-eq found.0.revisions found.1 active,
            up_to_date input.state source (active_source_id d)
                (throw_if-eq-ok _ active_source_changed current) reviewed,
          ))))
