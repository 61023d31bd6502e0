-- ===== src/Localization/Versioned/Tracks.antt =====
-- The first revisions of a workspace.
use voice_verse_ai.Common.{
  ◌≡◌, refl, sym, subst, String, inl, inr, some, List, [], ◌∷◌, ◌++◌, map, length, keep, ◌==◌,
  str_eq, ok, >>=-eq-ok, ok-injective, throw_if, All, All-of, All-append, All-map_list, Bool-cases,
  Option-cases, arith,
}
use voice_verse_ai.Scenes
use voice_verse_ai.Scenes.{Dialogue, partition_localization_scenes}
use voice_verse_ai.Ingest.Types.{AccessContext}
use voice_verse_ai.Ingest.Tables.{find}
use voice_verse_ai.Ingest.Create.{is_some}
use voice_verse_ai.Localization.Types.{
  Scope, LocalizationScene, LocalizedDialogue, LocalizationWorkspace, LocalizationTrack, Store,
  unique_violation, Resource,
}
use voice_verse_ai.Localization.Track.{
  Catalog, CreateTrack, SpeechAnalysis, analysis_for, ensure_workspace, is_track_of, new_track,
  workspace_scope, ensure_scenes, bootstrap_store, insert_all,
}
use voice_verse_ai.Localization.Track.Bootstrap.{
  TrackEnv, first_revision, first_selection, scene_id_of, scene_row, dialogue_row, dialogue_rows,
  workspace_rows, assert_segments, bootstrap_workspace,
}
use voice_verse_ai.Localization.Track.Create.{
  TrackResponse, has_track_id, insert_track, to_track_response, ensure_track,
  create_track_transaction,
}
use voice_verse_ai.Localization.Track.Inserted.{insert_all-AreVersioned}
use voice_verse_ai.Localization.Versioned.{IsVersioned, AreNumbered, HasRevision, HasRevision-added}
use voice_verse_ai.Localization.Versioned.Stores.{AreAllVersioned}

module _ (env : TrackEnv) (context : AccessContext) (scope : Scope) where
  first-IsVersioned {ℓ κ} :
      {K : Type ℓ} {P : Type κ} (row : Resource K P (Unit {0})) (revision_id : String) (content : P)
      → row.revisions ≡ first_revision env context revision_id content ∷ []
      → row.selection ≡ some (first_selection context revision_id)
      → IsVersioned row
  unfolding first_revision first_selection
  first-IsVersioned row revision_id content revisions selection =
      let first = first_revision env context revision_id content in
      (
        subst AreNumbered (sym revisions) ((tt, tt), (omega arith, tt)),
        λ s e.
            subst (λ rs. HasRevision rs s.selected_revision_id) (sym revisions)
              (subst (HasRevision (first ∷ [])) (cc (e, selection)) (HasRevision-added [] first)),
      )

  scene_row-IsVersioned : (x : Scenes.Scene) → IsVersioned (scene_row env context scope x)
  unfolding scene_row
  scene_row-IsVersioned x = first-IsVersioned (scene_row env context scope x) _ _ refl refl

  dialogue_row-IsVersioned :
      (analysis_id scene_id : String) (d : Dialogue)
      → IsVersioned (dialogue_row env context scope analysis_id scene_id d)
  unfolding dialogue_row
  dialogue_row-IsVersioned analysis_id scene_id d =
      first-IsVersioned (dialogue_row env context scope analysis_id scene_id d) _ _ refl refl

  dialogue_rows-IsVersioned :
      (analysis_id : String) (xs : List Scenes.Scene)
      → All IsVersioned (dialogue_rows env context scope analysis_id xs)
  unfolding dialogue_rows
  dialogue_rows-IsVersioned analysis_id [] = tt
  dialogue_rows-IsVersioned analysis_id (x ∷ xs) =
      let row = dialogue_row env context scope analysis_id (scene_id_of env scope x.ordinal) in
      All-append IsVersioned (map row x.dialogues) (dialogue_rows env context scope analysis_id xs)
        (All-map_list IsVersioned row x.dialogues
          (All-of x.dialogues (λ d. dialogue_row-IsVersioned analysis_id _ d)))
        (dialogue_rows-IsVersioned analysis_id xs)

  abbrev AreRowsVersioned : List LocalizationScene × List LocalizedDialogue → Type 0
  AreRowsVersioned rows = All IsVersioned rows.0 × All IsVersioned rows.1

  workspace_rows-versioned :
      (analysis_id : String) (scenes : List Scenes.Scene)
      {rows : List LocalizationScene × List LocalizedDialogue}
      → workspace_rows env context scope analysis_id scenes ≡ ok rows
      → AreRowsVersioned rows
  unfolding workspace_rows
  workspace_rows-versioned analysis_id [] h = cc h
  workspace_rows-versioned analysis_id (s ∷ ss) h = subst AreRowsVersioned (ok-injective h) (
    All-map_list IsVersioned (scene_row env context scope) (s ∷ ss)
        (All-of (s ∷ ss) scene_row-IsVersioned),
    dialogue_rows-IsVersioned analysis_id (s ∷ ss),
  )

module _ (env : TrackEnv) (context : AccessContext) (project_id : String)
    (analysis : SpeechAnalysis) (segments : List Dialogue) where
  bootstrap_store-AreAllVersioned :
      (scope : Scope) (store : Store) {next : Store}
      → bootstrap_store env context scope analysis.id segments store ≡ ok next
      → AreAllVersioned store
      → AreAllVersioned next
  unfolding bootstrap_store bootstrap_workspace
  bootstrap_store-AreAllVersioned scope store h are =
      let (rows, makes, h1) =
        >>=-eq-ok (bootstrap_workspace env context scope analysis.id segments) _ h in
      let (_, _, parts) = >>=-eq-ok (assert_segments segments) _ makes in
      let (scenes, inserts, h2) = >>=-eq-ok (insert_all rows.0 store.scenes) _ h1 in
      let (dialogues, inserts', done) = >>=-eq-ok (insert_all rows.1 store.dialogues) _ h2 in
      let (first, second) =
        workspace_rows-versioned env context scope analysis.id
          (partition_localization_scenes env.locale_compare segments) parts in
      subst AreAllVersioned (ok-injective done) (record {
        scenes = insert_all-AreVersioned rows.0 store.scenes inserts first are.scenes;
        dialogues = insert_all-AreVersioned rows.1 store.dialogues inserts' second are.dialogues;
        translations = are.translations;
        glossary = are.glossary;
      })

  ensure_scenes-AreAllVersioned :
      (workspace : LocalizationWorkspace) (store : Store) {next : Store}
      → ensure_scenes env context project_id analysis segments workspace store ≡ ok next
      → AreAllVersioned store
      → AreAllVersioned next
  unfolding ensure_scenes
  ensure_scenes-AreAllVersioned workspace store h are =
      elim (Bool-cases (
        length
          (keep (λ (s : LocalizationScene). str_eq s.scope.workspace_id workspace.id) store.scenes)
        == 0)) [
          | inr e ↦ subst AreAllVersioned (ok-injective (rw e at h)) are
          | inl e ↦
              bootstrap_store-AreAllVersioned (workspace_scope context project_id workspace.id)
                store (rw e at h) are
        ]

  ensure_track-AreAllVersioned :
      (language_id : String) (workspace : LocalizationWorkspace) (store : Store)
      {made : LocalizationTrack × Store}
      → ensure_track env context project_id analysis segments language_id workspace store ≡ ok made
      → AreAllVersioned store
      → AreAllVersioned made.1
  unfolding ensure_track insert_track
  ensure_track-AreAllVersioned language_id workspace store h are =
      elim (Option-cases (find (is_track_of workspace.id language_id) store.tracks)) [
        | inl e ↦
            (let track = new_track env context project_id workspace.id language_id in
              let (_, _, h1) =
                >>=-eq-ok
                  (throw_if (is_some (find (has_track_id track.id) store.tracks)) unique_violation)
                  _ (rw (e, ensure_track) at h) in
              let (next, ensures, done) =
                >>=-eq-ok
                  (ensure_scenes env context project_id analysis segments workspace
                    (record store { tracks = store.tracks ++ track ∷ [] }))
                  _ h1 in
              let later = ensure_scenes-AreAllVersioned workspace _ ensures (record {
                scenes = are.scenes;
                dialogues = are.dialogues;
                translations = are.translations;
                glossary = are.glossary;
              }) in
              subst (λ (x : LocalizationTrack × Store). AreAllVersioned x.1) (ok-injective done)
                (record {
                  scenes = later.scenes;
                  dialogues = later.dialogues;
                  translations = later.translations;
                  glossary = later.glossary;
                }))
        | inr (track, e) ↦
            (let (next, ensures, done) =
                >>=-eq-ok (ensure_scenes env context project_id analysis segments workspace store) _
                  (rw (e, ensure_track) at h) in
              subst (λ (x : LocalizationTrack × Store). AreAllVersioned x.1) (ok-injective done)
                (ensure_scenes-AreAllVersioned workspace store ensures are))
      ]

pub create_track_transaction-AreAllVersioned :
    (env : TrackEnv) (context : AccessContext) (project_id : String) (input : CreateTrack)
    (catalog : Catalog) (store : Store) {done : Store × TrackResponse}
    → create_track_transaction env context project_id input catalog store ≡ ok done
    → AreAllVersioned store
    → AreAllVersioned done.0
unfolding create_track_transaction
create_track_transaction-AreAllVersioned env context project_id input catalog store h are =
    let (found, _, h1) = >>=-eq-ok (analysis_for context project_id input catalog) _ h in
    let (ensured, _, h2) = >>=-eq-ok (ensure_workspace env context project_id found.0 store) _ h1 in
    let (made, makes, h3) =
      >>=-eq-ok
        (ensure_track env context project_id found.0 found.1 input.target_language_id ensured.0
          (record store { workspaces = ensured.1 }))
        _ h2 in
    let (answer, _, finished) = >>=-eq-ok (to_track_response env catalog made.1 made.0) _ h3 in
    subst (λ (x : Store × TrackResponse). AreAllVersioned x.0) (ok-injective finished)
      (ensure_track-AreAllVersioned env context project_id found.0 found.1 input.target_language_id
        ensured.0 _ makes
        (record {
          scenes = are.scenes;
          dialogues = are.dialogues;
          translations = are.translations;
          glossary = are.glossary;
        }))
