-- ===== src/Localization/Stale/Sources.antt =====
-- An edit of a source text, and a second one against the selection that the first one saw.
use voice_verse_ai.Common.{
  ℕ, ◌+◌, ◌≡◌, refl, sym, subst, ap, ◌∙◌, String, Bool, true, false, inl, inr, some, List, str_eq,
  ok, err, ◌>>◌, >>=-eq-ok, throw_if, throw_if-eq-ok, ok-injective, not, ◌==◌, arith,
}
use voice_verse_ai.Ingest.Types.{AccessContext, OrganizationRole}
use voice_verse_ai.Localization.Types.{
  Scope, Revision, LocalizedDialogue, LocalizationTrack, LocalizationAudit, Store,
  LocalizationError, dialogue_not_found, source_not_found, edit_without_change,
}
use voice_verse_ai.Localization.Versions.{
  is_owned, selected_at, reselect, add_revision, require_selection, assert_expected_revision,
  selected_revision, next_revision_number,
}
use voice_verse_ai.Localization.Access.{
  EditEnv, assert_can_edit, assert_uuid, owned_track, scope_of, new_revision,
  rethrow_write_conflict,
}
use voice_verse_ai.Localization.Values.{normalize_required_editorial_text}
use voice_verse_ai.Localization.Source.{
  SourceTables, SourceRevisionResponse, UpdateSource, owned_dialogue, cas_source_selection,
  activate_source, write_source, edit_source, put_sources, update_source_dialogue,
}
use voice_verse_ai.Localization.Writes.{require-eq, require_selection-eq}
use voice_verse_ai.Localization.Stale.{
  IsSelectedAt, IsSelectedAt-once, selected_at-of, cas_selection-IsSelectedAt,
  add_revision-IsSelectedAt,
}
use voice_verse_ai.Localization.Writes.{commit-eq_ok, checked-eq_ok, checked-cases}

-- What an edit finds, and what it leaves.
abbrev Moves : String → Scope → ℕ → List LocalizedDialogue → List LocalizedDialogue → Type 0
Moves dialogue_id scope expected before after =
    IsSelectedAt (is_owned dialogue_id scope) expected before
    × IsSelectedAt (is_owned dialogue_id scope) (expected + 1) after

module _ (context : AccessContext) (project_id track_id dialogue_id : String) (store : Store) where
  activate_source-IsSelectedAt :
      (scope : Scope) (action : String) (expected : ℕ) (revision : Revision String)
      (added : List LocalizedDialogue) {tables : SourceTables} {entry : LocalizationAudit}
      {answer : SourceRevisionResponse}
      → IsSelectedAt (is_owned dialogue_id scope) expected added
      → activate_source context scope dialogue_id action expected revision added store
        ≡ ok (tables, entry, answer)
      → IsSelectedAt (is_owned dialogue_id scope) (expected + 1) tables.0
  unfolding activate_source cas_source_selection is_owned reselect
  activate_source-IsSelectedAt scope action expected revision added selected h =
      let (dialogues, cas, done) =
        >>=-eq-ok (cas_source_selection context scope dialogue_id revision.id expected added) _ h in
      subst (λ (t : SourceTables). IsSelectedAt (is_owned dialogue_id scope) (expected + 1) t.0)
        (ap (λ (x : SourceTables × LocalizationAudit × SourceRevisionResponse). x.0)
          (ok-injective done))
        (cas_selection-IsSelectedAt (is_owned dialogue_id scope) expected context.user_id
          revision.id tt added (λ _. refl) selected cas)

  edit_source-Moves :
      (env : EditEnv) (text : String) (expected : ℕ) {tables : SourceTables}
      {entry : LocalizationAudit} {answer : SourceRevisionResponse}
      → edit_source env context project_id track_id dialogue_id text expected store
        ≡ ok (tables, entry, answer)
      → (track : LocalizationTrack) × (owned_track context project_id track_id store ≡ ok track)
        × Moves dialogue_id (scope_of context project_id track) expected store.dialogues tables.0
  unfolding edit_source write_source owned_dialogue assert_expected_revision is_owned
  edit_source-Moves env text expected {tables} h =
      let (track, owned, h1) = >>=-eq-ok (owned_track context project_id track_id store) _ h in
      let scope = scope_of context project_id track in
      let p : LocalizedDialogue → Bool = is_owned dialogue_id scope in
      let (d, has, h2) = >>=-eq-ok (owned_dialogue scope dialogue_id store) _ h1 in
      let (found, there, h3) = >>=-eq-ok (require_selection source_not_found (some d)) _ h2 in
      let (_, same, h4) = >>=-eq-ok (assert_expected_revision found.1.revision expected) _ h3 in
      let (current, _, h5) = >>=-eq-ok (selected_revision d.revisions found.1) _ h4 in
      let (_, _, h6) =
        >>=-eq-ok (throw_if (str_eq current.content text) edit_without_change) _ h5 in
      let revision = new_revision env context (next_revision_number d.revisions) text in
      let (added, adds, h7) = >>=-eq-ok (add_revision dialogue_id revision store.dialogues) _ h6 in
      let (is_row, selection) = require_selection-eq source_not_found (some d) there in
      let row : d ≡ found.0 = cc is_row in
      let at : selected_at expected d ≡ true =
        selected_at-of d found.1 expected
          (subst (λ (x : LocalizedDialogue). x.selection ≡ some found.1) (sym row) selection)
          (expected-eq found.1.revision expected same) in
      let before : IsSelectedAt p expected store.dialogues =
        (d, require-eq dialogue_not_found _ has, at) in
      let moved : IsSelectedAt p (expected + 1) tables.0 =
        activate_source-IsSelectedAt scope "localization.dialogue.source_revision.created" expected
          revision added
          (add_revision-IsSelectedAt p expected dialogue_id revision store.dialogues (λ _. refl)
            before adds)
          h7 in
      let moves : Moves dialogue_id scope expected store.dialogues tables.0 = (before, moved) in
      (track, owned, moves)
    where
      not_false : (b : Bool) → not b ≡ false → b ≡ true
      not_false true h = refl
      not_false false h = cc h

      expected-eq :
          (actual expected : ℕ)
          → assert_expected_revision actual expected ≡ ok tt
          → (actual == expected) ≡ true
      expected-eq actual expected h =
          unfold assert_expected_revision in
          not_false (actual == expected) (throw_if-eq-ok (not (actual == expected)) _ h)

  -- An answered edit has moved the selection of its dialogue by one.
  update_source_dialogue-Moves :
      (env : EditEnv) (input : UpdateSource) {after : Store} {answer : SourceRevisionResponse}
      → update_source_dialogue env context project_id track_id dialogue_id input store
        ≡ (after, ok answer)
      → (track : LocalizationTrack) × (owned_track context project_id track_id store ≡ ok track)
        × (after.tracks ≡ store.tracks)
        × Moves dialogue_id
            (scope_of context project_id track)
            input.expected_revision
            store.dialogues
            after.dialogues
  unfolding update_source_dialogue put_sources
  update_source_dialogue-Moves env input h =
      let (text, _, made) = checked-eq_ok store _ _ h in
      let edit =
        edit_source env context project_id track_id dialogue_id text input.expected_revision
          store in
      let (tables, entry, outcome, written) =
        commit-eq_ok rethrow_write_conflict put_sources env.fault store edit made in
      let (track, owned, moves) = edit_source-Moves env text input.expected_revision outcome in
      (
        track,
        owned,
        ap (λ (s : Store). s.tracks) (sym written),
        subst
            (Moves dialogue_id (scope_of context project_id track) input.expected_revision
              store.dialogues)
            (ap (λ (s : Store). s.dialogues) written) moves,
      )

-- Whoever asks, the track is the same one.
owned_track-same :
    (context : AccessContext) (user_id : String) (role : OrganizationRole)
    (project_id track_id : String) (store after : Store)
    → after.tracks ≡ store.tracks
    → owned_track (record context { user_id = user_id; role = role }) project_id track_id after
      ≡ owned_track context project_id track_id store
unfolding owned_track
owned_track-same context user_id role project_id track_id store after kept = rw kept refl

-- No update of a source text is lost: when an edit was answered, another one, by any user of the same
-- organization, that was made against the same selection of the same dialogue and comes next, with any
-- text and any ids, is refused and writes nothing.
pub update_source_dialogue-stale :
    (env later_env : EditEnv) (context : AccessContext) (user_id : String) (role : OrganizationRole)
    (project_id track_id dialogue_id : String) (input later_input : UpdateSource)
    (store after : Store) (answer : SourceRevisionResponse)
    → update_source_dialogue env context project_id track_id dialogue_id input store
      ≡ (after, ok answer)
    → later_input.expected_revision ≡ input.expected_revision
    → (e : LocalizationError) × (update_source_dialogue later_env
          (record context { user_id = user_id; role = role })
          project_id
          track_id
          dialogue_id
          later_input
          after
        ≡ (after, err e))
unfolding update_source_dialogue owned_track scope_of
update_source_dialogue-stale env later_env context user_id role project_id track_id dialogue_id
      input later_input store after answer h same =
    let later = record context { user_id = user_id; role = role } in
    elim (checked-cases rethrow_write_conflict put_sources later_env.fault after
      (assert_can_edit later
        >> assert_uuid dialogue_id "dialogue"
        >> normalize_required_editorial_text later_env.nfc later_input.source_text)
      (λ text.
        edit_source later_env later project_id track_id dialogue_id text
          later_input.expected_revision after)) [
            | inr refused ↦ refused
            | inl (last, answered, again) ↦
                let (track, owned, kept, moves) =
                  update_source_dialogue-Moves context project_id track_id dialogue_id store env
                    input h in
                let (track', owned', _, moves') =
                  update_source_dialogue-Moves later project_id track_id dialogue_id after later_env
                    later_input again in
                let one : track' ≡ track = ok-injective (
                  sym owned'
                  ∙ owned_track-same context user_id role project_id track_id store after kept
                  ∙ owned) in
                let p : LocalizationTrack → LocalizedDialogue → Bool =
                  λ t. is_owned dialogue_id (scope_of context project_id t) in
                let at : IsSelectedAt (p track) later_input.expected_revision after.dialogues =
                  subst (λ t. IsSelectedAt (p t) later_input.expected_revision after.dialogues) one
                    moves'.0 in
                let next : input.expected_revision + 1 ≡ later_input.expected_revision =
                  IsSelectedAt-once (p track) (input.expected_revision + 1)
                    later_input.expected_revision after.dialogues moves.1 at in
                absurd (omega (arith, next, same))
          ]
