-- ===== src/Localization/Sound/Sources.antt =====
-- What an edit or a selection of a source text keeps.
use voice_verse_ai.Common.{
  ℕ, ◌≡◌, refl, subst, ap, String, some, List, str_eq, ok, >>=-eq-ok, ok-injective, throw_if, All,
  All-map,
}
use voice_verse_ai.Ingest.Types.{AccessContext}
use voice_verse_ai.Ingest.Tables.{find, update}
use voice_verse_ai.Localization.Types.{
  Scope, Revision, LocalizedDialogue, DialogueTranslation, LocalizationAudit, Store,
  edit_without_change, already_active, source_revision_not_found,
}
use voice_verse_ai.Localization.Versions.{
  is_owned, reselect, add_revision, require_selection, require, assert_expected_revision,
  selected_revision, has_revision_id,
}
use voice_verse_ai.Localization.Access.{EditEnv, owned_track, SelectRevision}
use voice_verse_ai.Localization.Source.{
  SourceTables, SourceRevisionResponse, cas_source_selection, is_translation_of, reopen,
  reopen_translations_after_source_change, activate_source, write_source, edit_source,
  choose_source, owned_dialogue, put_sources,
}
use voice_verse_ai.Localization.Keyed.{All-update, AreKeyed-update, if-cases}
use voice_verse_ai.Localization.Settled.{
  IsSettled, reopen-IsSettled, IsSettled-other, IsSettled-added,
}
use voice_verse_ai.Localization.Writes.{add_revision-eq, cas_selection-eq}
use voice_verse_ai.Localization.Sound.{IsLinked, IsSound, translation_key}

-- The tables that the transaction writes.
abbrev pub PutSources : Store → SourceTables → Type 0
PutSources store tables = IsSound (put_sources tables store)

module _ (context : AccessContext) (store : Store) (sound : IsSound store) where
  pub activate_source-IsSound :
      (scope : Scope) (dialogue_id action : String) (expected : ℕ) (revision : Revision String)
      (added : List LocalizedDialogue)
      → ((t : DialogueTranslation) → IsSettled store.dialogues t → IsSettled added t)
      → {tables : SourceTables} {entry : LocalizationAudit} {answer : SourceRevisionResponse}
      → activate_source context scope dialogue_id action expected revision added store
        ≡ ok (tables, entry, answer)
      → PutSources store tables
  unfolding activate_source cas_source_selection reopen_translations_after_source_change put_sources
      reopen reselect is_owned
  activate_source-IsSound scope dialogue_id action expected revision added settled {tables} h =
      let (dialogues, cas, done) =
        >>=-eq-ok (cas_source_selection context scope dialogue_id revision.id expected added) _ h in
      let (_, written) = cas_selection-eq _ expected _ added cas in
      let same : (
        dialogues,
        update (is_translation_of scope dialogue_id) (reopen context.user_id) store.translations,
      )
          ≡ tables =
        ap (λ (x : SourceTables × LocalizationAudit × SourceRevisionResponse). x.0)
          (ok-injective done) in
      subst (PutSources store) same (record {
        tracks_keyed = sound.tracks_keyed;
        translations_keyed =
            AreKeyed-update translation_key _ (reopen context.user_id) store.translations
              (λ _. refl) sound.translations_keyed;
        linked = All-update _ _ (reopen context.user_id) store.translations (
            All-map
              (λ t link.
                if-cases (IsLinked store.tracks) _ (reopen context.user_id t) t (λ _. link)
                  (λ _. link))
              store.translations sound.linked);
        settled =
            subst
              (λ ds. All (IsSettled ds) (
                update (is_translation_of scope dialogue_id) (reopen context.user_id)
                  store.translations))
              written
              (All-update _ _ (reopen context.user_id) store.translations (
                All-map
                  (λ t old.
                    if-cases (IsSettled _) _ (reopen context.user_id t) t
                      (λ _. reopen-IsSettled _ context.user_id t)
                      (λ other.
                        IsSettled-other scope dialogue_id expected
                          (reselect context.user_id revision.id tt) (λ _ _ _. refl) added t other
                          (settled t old)))
                  store.translations sound.settled));
      })

  write_source-IsSound :
      (scope : Scope) (dialogue_id : String) (expected : ℕ) (revision : Revision String)
      {tables : SourceTables} {entry : LocalizationAudit} {answer : SourceRevisionResponse}
      → write_source context scope dialogue_id expected revision store ≡ ok (tables, entry, answer)
      → PutSources store tables
  unfolding write_source
  write_source-IsSound scope dialogue_id expected revision h =
      let (added, adds, rest) = >>=-eq-ok (add_revision dialogue_id revision store.dialogues) _ h in
      let (_, written) = add_revision-eq dialogue_id revision store.dialogues adds in
      activate_source-IsSound scope dialogue_id _ expected revision added
        (λ t old. subst (λ ds. IsSettled ds t) written (IsSettled-added _ revision _ t old)) rest

  pub edit_source-IsSound :
      (env : EditEnv) (project_id track_id dialogue_id text : String) (expected : ℕ)
      {tables : SourceTables} {entry : LocalizationAudit} {answer : SourceRevisionResponse}
      → edit_source env context project_id track_id dialogue_id text expected store
        ≡ ok (tables, entry, answer)
      → PutSources store tables
  unfolding edit_source
  edit_source-IsSound env project_id track_id dialogue_id text expected h =
      let (_, _, h1) = >>=-eq-ok (owned_track context project_id track_id store) _ h in
      let (dialogue, _, h2) = >>=-eq-ok (owned_dialogue _ dialogue_id store) _ h1 in
      let (found, _, h3) = >>=-eq-ok (require_selection _ (some dialogue)) _ h2 in
      let (_, _, h4) = >>=-eq-ok (assert_expected_revision found.1.revision expected) _ h3 in
      let (current, _, h5) = >>=-eq-ok (selected_revision dialogue.revisions found.1) _ h4 in
      let (_, _, h6) =
        >>=-eq-ok (throw_if (str_eq current.content text) edit_without_change) _ h5 in
      write_source-IsSound _ dialogue_id expected _ h6

  pub choose_source-IsSound :
      (project_id track_id dialogue_id : String) (input : SelectRevision) {tables : SourceTables}
      {entry : LocalizationAudit} {answer : SourceRevisionResponse}
      → choose_source context project_id track_id dialogue_id input store
        ≡ ok (tables, entry, answer)
      → PutSources store tables
  unfolding choose_source
  choose_source-IsSound project_id track_id dialogue_id input h =
      let (_, _, h1) = >>=-eq-ok (owned_track context project_id track_id store) _ h in
      let (dialogue, _, h2) = >>=-eq-ok (owned_dialogue _ dialogue_id store) _ h1 in
      let (found, _, h3) = >>=-eq-ok (require_selection _ (some dialogue)) _ h2 in
      let (revision, _, h4) =
        >>=-eq-ok
          (require source_revision_not_found
            (find (has_revision_id input.revision_id) dialogue.revisions))
          _ h3 in
      let (_, _, h5) =
        >>=-eq-ok (assert_expected_revision found.1.revision input.expected_revision) _ h4 in
      let (_, _, h6) =
        >>=-eq-ok (throw_if (str_eq found.1.selected_revision_id revision.id) already_active) _
          h5 in
      activate_source-IsSound _ dialogue_id _ input.expected_revision _ store.dialogues
        (λ _ old. old) h6
