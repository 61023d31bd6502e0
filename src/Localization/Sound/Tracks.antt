-- ===== src/Localization/Sound/Tracks.antt =====
-- What a transaction of `createTrack` keeps.
use voice_verse_ai.Common.{
  ◌≡◌, sym, subst, String, false, inl, inr, none, List, ◌++◌, ◌∷◌, [], str_eq, ok, >>=-eq-ok,
  ok-injective, throw_if, throw_if-eq-ok, All, All-map, Bool-cases, Option-cases, length, keep,
  ◌==◌,
}
use voice_verse_ai.Scenes.{Dialogue}
use voice_verse_ai.Ingest.Types.{AccessContext}
use voice_verse_ai.Ingest.Tables.{find}
use voice_verse_ai.Ingest.Create.{is_some}
use voice_verse_ai.Localization.Types.{
  Scope, LocalizationWorkspace, LocalizationTrack, LocalizationScene, Store, unique_violation,
}
use voice_verse_ai.Localization.Access.{audit_entry}
use voice_verse_ai.Localization.Track.{
  Catalog, CreateTrack, SpeechAnalysis, analysis_for, ensure_workspace, is_track_of,
  workspace_scope, ensure_scenes, bootstrap_store, insert_all,
}
use voice_verse_ai.Localization.Track.Bootstrap.{TrackEnv, bootstrap_workspace}
use voice_verse_ai.Localization.Track.Create.{
  TrackResponse, has_track_id, insert_track, to_track_response, ensure_track,
  create_track_transaction,
}
use voice_verse_ai.Localization.Keyed.{find-append_left, AreKeyed-append}
use voice_verse_ai.Localization.Settled.{IsSettled, IsSettled-append}
use voice_verse_ai.Localization.Track.Inserted.{insert_all-eq}
use voice_verse_ai.Localization.Sound.{IsSound, track_key}

module _ (env : TrackEnv) (context : AccessContext) (project_id : String)
    (analysis : SpeechAnalysis) (segments : List Dialogue) where
  bootstrap_store-IsSound :
      (scope : Scope) (store : Store) {next : Store}
      → bootstrap_store env context scope analysis.id segments store ≡ ok next
      → IsSound store
      → IsSound next
  unfolding bootstrap_store
  bootstrap_store-IsSound scope store h sound =
      let (rows, _, h1) =
        >>=-eq-ok (bootstrap_workspace env context scope analysis.id segments) _ h in
      let (scenes, _, h2) = >>=-eq-ok (insert_all rows.0 store.scenes) _ h1 in
      let (dialogues, inserts, done) = >>=-eq-ok (insert_all rows.1 store.dialogues) _ h2 in
      subst IsSound (ok-injective done) (record {
        tracks_keyed = sound.tracks_keyed;
        translations_keyed = sound.translations_keyed;
        linked = sound.linked;
        settled =
            subst (λ ds. All (IsSettled ds) store.translations)
              (sym (insert_all-eq rows.1 store.dialogues inserts).0)
              (All-map (λ t settled. IsSettled-append store.dialogues rows.1 t settled)
                store.translations sound.settled);
      })

  ensure_scenes-IsSound :
      (workspace : LocalizationWorkspace) (store : Store) {next : Store}
      → ensure_scenes env context project_id analysis segments workspace store ≡ ok next
      → IsSound store
      → IsSound next
  unfolding ensure_scenes
  ensure_scenes-IsSound workspace store {next} h sound =
      elim (Bool-cases (
        length
          (keep (λ (s : LocalizationScene). str_eq s.scope.workspace_id workspace.id) store.scenes)
        == 0)) [
          | inr e ↦ subst IsSound (ok-injective (rw e at h)) sound
          | inl e ↦
              bootstrap_store-IsSound (workspace_scope context project_id workspace.id) store
                (rw e at h) sound
        ]

  tracks_with-IsSound :
      (track : LocalizationTrack) (store : Store)
      → find (has_track_id track.id) store.tracks ≡ none
      → IsSound store
      → IsSound (record store { tracks = store.tracks ++ track ∷ [] })
  tracks_with-IsSound track store fresh sound = record {
    tracks_keyed = AreKeyed-append track_key store.tracks track fresh sound.tracks_keyed;
    translations_keyed = sound.translations_keyed;
    linked =
        All-map
          (λ t (found, at, scope). (found, find-append_left _ store.tracks (track ∷ []) at, scope))
          store.translations sound.linked;
    settled = sound.settled;
  }

  insert_track-IsSound :
      (workspace : LocalizationWorkspace) (track : LocalizationTrack) (store : Store)
      {made : LocalizationTrack × Store}
      → insert_track env context project_id analysis segments workspace track store ≡ ok made
      → IsSound store
      → IsSound made.1
  unfolding insert_track is_some
  insert_track-IsSound workspace track store {made} h sound =
      let (_, free, h1) =
        >>=-eq-ok (throw_if (is_some (find (has_track_id track.id) store.tracks)) unique_violation)
          _ h in
      let (next, ensures, done) =
        >>=-eq-ok
          (ensure_scenes env context project_id analysis segments workspace
            (record store { tracks = store.tracks ++ track ∷ [] }))
          _ h1 in
      subst (λ (x : LocalizationTrack × Store). IsSound x.1) (ok-injective done)
        (audited next (
          ensure_scenes-IsSound workspace _ ensures (
            tracks_with-IsSound track store (fresh (throw_if-eq-ok _ unique_violation free))
              sound)))
    where
      fresh :
          is_some (find (has_track_id track.id) store.tracks) ≡ false
          → find (has_track_id track.id) store.tracks ≡ none
      fresh e = elim (Option-cases (find (has_track_id track.id) store.tracks)) [
        | inl n ↦ n
        | inr (_, n) ↦ cc (rw n at e)
      ]

      audited :
          (next : Store)
          → IsSound next
          → IsSound (record next {
            audit =
                next.audit
                ++ audit_entry context "localization.track.created" "localization_track" track.id
                  ∷ [];
          })
      audited next k = record {
        tracks_keyed = k.tracks_keyed;
        translations_keyed = k.translations_keyed;
        linked = k.linked;
        settled = k.settled;
      }

  ensure_track-IsSound :
      (language_id : String) (workspace : LocalizationWorkspace) (store : Store)
      {made : LocalizationTrack × Store}
      → ensure_track env context project_id analysis segments language_id workspace store ≡ ok made
      → IsSound store
      → IsSound made.1
  unfolding ensure_track
  ensure_track-IsSound language_id workspace store h sound =
      elim (Option-cases (find (is_track_of workspace.id language_id) store.tracks)) [
        | inl e ↦ insert_track-IsSound workspace _ store (rw (e, ensure_track) at h) sound
        | inr (track, e) ↦
            (let (next, ensures, done) =
                >>=-eq-ok (ensure_scenes env context project_id analysis segments workspace store) _
                  (rw (e, ensure_track) at h) in
              subst (λ (x : LocalizationTrack × Store). IsSound x.1) (ok-injective done)
                (ensure_scenes-IsSound workspace store ensures sound))
      ]

pub create_track_transaction-IsSound :
    (env : TrackEnv) (context : AccessContext) (project_id : String) (input : CreateTrack)
    (catalog : Catalog) (store : Store) {done : Store × TrackResponse}
    → create_track_transaction env context project_id input catalog store ≡ ok done
    → IsSound store
    → IsSound done.0
unfolding create_track_transaction
create_track_transaction-IsSound env context project_id input catalog store h sound =
    let (found, _, h1) = >>=-eq-ok (analysis_for context project_id input catalog) _ h in
    let (ensured, _, h2) = >>=-eq-ok (ensure_workspace env context project_id found.0 store) _ h1 in
    let (made, makes, h3) =
      >>=-eq-ok
        (ensure_track env context project_id found.0 found.1 input.target_language_id ensured.0
          (record store { workspaces = ensured.1 }))
        _ h2 in
    let (answer, _, finished) = >>=-eq-ok (to_track_response env catalog made.1 made.0) _ h3 in
    subst (λ (x : Store × TrackResponse). IsSound x.0) (ok-injective finished)
      (ensure_track-IsSound env context project_id found.0 found.1 input.target_language_id
        ensured.0 _ makes
        (record {
          tracks_keyed = sound.tracks_keyed;
          translations_keyed = sound.translations_keyed;
          linked = sound.linked;
          settled = sound.settled;
        }))
