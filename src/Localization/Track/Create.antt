-- ===== src/Localization/Track/Create.antt =====
-- The transaction of `createTrack`, its attempts, and the answer.
use voice_verse_ai.Common.{
  ℕ, zero, suc, String, Bool, false, ◌&&◌, Option, none, some, List, [], ◌∷◌, ◌++◌, str_eq, Result,
  ok, err, ◌>>=◌, ◌>>◌, throw_if,
}
use voice_verse_ai.Scenes.{Dialogue}
use voice_verse_ai.Ingest.Types.{AccessContext}
use voice_verse_ai.Ingest.Tables.{find}
use voice_verse_ai.Localization.Types.{
  LocalizationWorkspace, LocalizationTrack, Store, LocalizationError, workspace_changed,
  unique_violation, write_conflict, database_failure,
}
use voice_verse_ai.Ingest.Create.{is_some}
use voice_verse_ai.Localization.Versions.{require}
use voice_verse_ai.Localization.Access.{assert_can_edit, assert_uuid, audit_entry, checked}
use voice_verse_ai.Localization.Track.{
  Catalog, CreateTrack, SpeechAnalysis, AnalysisJob, Language, analysis_for, ensure_workspace,
  is_track_of, new_track, ensure_scenes,
}
use voice_verse_ai.Localization.Track.Bootstrap.{TrackEnv}

pub record TrackResponse : Type 0 where
  pub id : String
  pub project_id : String
  pub workspace_id : String
  pub speech_analysis_id : String
  pub source_language : Language
  pub target_language : Language
  pub generation_enabled : Bool
  pub created_at : ℕ

abbrev pub has_analysis_id : String → AnalysisJob → Bool
has_analysis_id id job = elim job.analysis [ none ↦ false | some analysis ↦ str_eq analysis.id id ]

unfoldable pub analysis_row : String → Catalog → Result LocalizationError SpeechAnalysis
analysis_row id catalog = do
  job ← require database_failure (find (has_analysis_id id) catalog.jobs)
  require database_failure job.analysis

unfoldable pub language_row : String → Catalog → Result LocalizationError Language
language_row id catalog =
    require database_failure (find (λ (l : Language). str_eq l.id id) catalog.languages)

-- `toTrackResponse` of a row with the relations of `trackScopeSelect`, whose foreign keys say that
-- they are there.
unfoldable pub to_track_response :
    TrackEnv → Catalog → Store → LocalizationTrack → Result LocalizationError TrackResponse
to_track_response env catalog store track = do
  workspace ←
      require database_failure (
        find (λ (w : LocalizationWorkspace). str_eq w.id track.scope.workspace_id) store.workspaces)
  analysis ← analysis_row workspace.speech_analysis_id catalog
  source ← language_row analysis.source_language_id catalog
  target ← language_row track.target_language_id catalog
  ok (record {
    id = track.id;
    project_id = track.scope.project_id;
    workspace_id = track.scope.workspace_id;
    speech_analysis_id = analysis.id;
    source_language = source;
    target_language = target;
    generation_enabled = env.translation_enabled;
    created_at = track.created_at;
  })

abbrev pub has_track_id : String → LocalizationTrack → Bool
has_track_id id track = str_eq track.id id

-- `create` of the track, the scenes that the workspace lacks, and the audit entry.
unfoldable pub insert_track :
    TrackEnv
    → AccessContext
    → String
    → SpeechAnalysis
    → List Dialogue
    → LocalizationWorkspace
    → LocalizationTrack
    → Store
    → Result LocalizationError (LocalizationTrack × Store)
insert_track env context project_id analysis segments workspace track store = do
  throw_if (is_some (find (has_track_id track.id) store.tracks)) unique_violation
  next ←
      ensure_scenes env context project_id analysis segments workspace
        (record store { tracks = store.tracks ++ track ∷ [] })
  ok (
    track,
    record next {
      audit =
          next.audit
          ++ audit_entry context "localization.track.created" "localization_track" track.id ∷ [];
    },
  )

-- The track of the language, new where the workspace has none.
unfoldable pub ensure_track :
    TrackEnv
    → AccessContext
    → String
    → SpeechAnalysis
    → List Dialogue
    → String
    → LocalizationWorkspace
    → Store
    → Result LocalizationError (LocalizationTrack × Store)
ensure_track env context project_id analysis segments language_id workspace store =
    elim (find (is_track_of workspace.id language_id) store.tracks) [
      | some track ↦
          ensure_scenes env context project_id analysis segments workspace store >>= λ next.
          ok (track, next)
      | none ↦
          insert_track env context project_id analysis segments workspace
            (new_track env context project_id workspace.id language_id) store
    ]

unfoldable pub create_track_transaction :
    TrackEnv
    → AccessContext
    → String
    → CreateTrack
    → Catalog
    → Store
    → Result LocalizationError (Store × TrackResponse)
create_track_transaction env context project_id input catalog store = do
  found ← analysis_for context project_id input catalog
  ensured ← ensure_workspace env context project_id found.0 store
  made ←
      ensure_track env context project_id found.0 found.1 input.target_language_id ensured.0
        (record store { workspaces = ensured.1 })
  answer ← to_track_response env catalog made.1 made.0
  ok (made.1, answer)

-- The workspace of the track is of the job's analysis.
unfoldable pub is_of_job : String → Catalog → Store → LocalizationTrack → Bool
is_of_job job_id catalog store track =
    elim (find (λ (w : LocalizationWorkspace). str_eq w.id track.scope.workspace_id)
      store.workspaces) [
        | none ↦ false
        | some workspace ↦ elim (find (has_analysis_id workspace.speech_analysis_id) catalog.jobs) [
          | none ↦ false
          | some job ↦ str_eq job.id job_id
        ]
      ]

unfoldable pub find_idempotent_track :
    AccessContext → String → CreateTrack → Catalog → Store → Option LocalizationTrack
find_idempotent_track context project_id input catalog store =
    find
      (λ (t : LocalizationTrack).
        str_eq t.scope.organization_id context.organization_id
        && str_eq t.scope.project_id project_id
        && str_eq t.target_language_id input.target_language_id
        && is_of_job input.speech_analysis_job_id catalog store t)
      store.tracks

-- What surrounds an attempt.
pub record Attempt : Type 0 where
  pub meanwhile : Store → Store
  pub fault : Option LocalizationError
  pub before_lookup : Store → Store

-- The transaction with its commit: nothing of a failed one stays.
unfoldable pub run_attempt {ℓ} :
    {A : Type ℓ}
    → Option LocalizationError
    → Result LocalizationError (Store × A)
    → Result LocalizationError (Store × A)
run_attempt fault (err e) = err e
run_attempt none (ok done) = ok done
run_attempt (some e) (ok done) = err e

-- What the `catch` does with an error: to try again, to look for the winner, or to throw.
pub data Recourse : Type 0 where
  retry look_up give_up : Recourse

unfoldable pub recourse_of : LocalizationError → (attempts_left : ℕ) → Recourse
recourse_of write_conflict (suc left) = retry
recourse_of unique_violation left = look_up
recourse_of error left = give_up

-- The attempts, numbered by those that are left after them.
unfoldable pub track_attempts :
    TrackEnv
    → AccessContext
    → String
    → CreateTrack
    → Catalog
    → (ℕ → Attempt)
    → ℕ
    → Store
    → Store × Result LocalizationError TrackResponse
track_attempts env context project_id input catalog attempts zero store =
    (store, err workspace_changed)
track_attempts env context project_id input catalog attempts (suc left) store =
    let before = (attempts left).meanwhile store in
    let after = (attempts left).before_lookup before in
    elim (run_attempt (attempts left).fault
      (create_track_transaction env context project_id input catalog before)) [
        | ok done ↦ (done.0, ok done.1)
        | err e ↦ elim (recourse_of e left) [
          | retry ↦ track_attempts env context project_id input catalog attempts left before
          | give_up ↦ (before, err e)
          | look_up ↦ elim (find_idempotent_track context project_id input catalog after) [
            | some winner ↦ (after, to_track_response env catalog after winner)
            | none ↦ elim left [
              | zero ↦ (after, err e)
              | suc others ↦ track_attempts env context project_id input catalog attempts left after
            ]
          ]
        ]
      ]

unfoldable pub create_track :
    TrackEnv
    → AccessContext
    → String
    → CreateTrack
    → Catalog
    → (ℕ → Attempt)
    → Store
    → Store × Result LocalizationError TrackResponse
create_track env context project_id input catalog attempts store =
    checked store
      (assert_can_edit context
        >> assert_uuid project_id "project"
        >> assert_uuid input.speech_analysis_job_id "speech-analysis job"
        >> assert_uuid input.target_language_id "target language")
      λ _. track_attempts env context project_id input catalog attempts 3 store
