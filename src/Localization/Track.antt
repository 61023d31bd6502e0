-- ===== src/Localization/Track.antt =====
-- `createTrack` and `createTrackTransaction` of the localization service. The rows of other components
-- that they read are the argument `catalog`. An attempt is given what other requests wrote before it,
-- the error of its commit, if it fails, and what was written before the failure is looked into.
use voice_verse_ai.Common.{
  ℕ, zero, suc, String, Bool, true, false, not, ◌&&◌, ◌==◌, if◌then◌else◌, Option, none, some, List,
  [], ◌∷◌, ◌++◌, length, keep, str_eq, text_eq, Result, ok, err, ◌>>=◌, ◌>>◌, throw_if,
}
use voice_verse_ai.Common.Text.{join}
use voice_verse_ai.Scenes.{Dialogue}
use voice_verse_ai.Ingest.Types.{AccessContext}
use voice_verse_ai.Ingest.Tables.{find}
use voice_verse_ai.Ingest.Create.{is_some}
use voice_verse_ai.Localization.Types.{
  Scope, same_scope, Resource, LocalizationScene, LocalizationWorkspace, LocalizationTrack, Store,
  LocalizationError, job_not_found, not_speech_analysis, analysis_not_succeeded,
  analysis_not_committed, same_language, language_not_configured, pinned_elsewhere,
  workspace_changed, unique_violation, write_conflict, database_failure,
}
use voice_verse_ai.Localization.Values.{deterministic_localization_uuid}
use voice_verse_ai.Localization.Versions.{require}
use voice_verse_ai.Localization.Access.{assert_can_edit, assert_uuid, audit_entry, checked}
use voice_verse_ai.Localization.Track.Bootstrap.{TrackEnv, bootstrap_workspace}
pub mod Bootstrap
pub mod Create
pub mod Inserted

pub data WorkflowJobKind : Type 0 where
  source_preparation speech_analysis : WorkflowJobKind

pub data WorkflowJobStatus : Type 0 where
  queued running succeeded failed cancel_requested canceled : WorkflowJobStatus

-- `projectSelection` is the analysis that the project has committed to; the dialogue segments are those
-- of the character identification run, in the order of their sequence numbers.
pub record SpeechAnalysis : Type 0 where
  pub id : String
  pub source_language_id : String
  pub dialogue_segments : Option (List Dialogue)
  pub project_selection : Option String

pub record AnalysisJob : Type 0 where
  pub id : String
  pub organization_id : String
  pub project_id : String
  pub kind : WorkflowJobKind
  pub status : WorkflowJobStatus
  pub analysis : Option SpeechAnalysis

pub record Language : Type 0 where
  pub id : String
  pub bcp47_tag : String
  pub english_name : String

pub record TargetLanguage : Type 0 where
  pub project_id : String
  pub language_id : String

pub record Catalog : Type 0 where
  pub jobs : List AnalysisJob
  pub languages : List Language
  pub target_languages : List TargetLanguage

-- `CreateLocalizationTrackDto`
pub record CreateTrack : Type 0 where
  pub speech_analysis_job_id : String
  pub target_language_id : String

unfoldable pub is_speech_analysis : WorkflowJobKind → Bool
is_speech_analysis speech_analysis = true
is_speech_analysis _ = false

unfoldable pub is_succeeded : WorkflowJobStatus → Bool
is_succeeded succeeded = true
is_succeeded _ = false

-- The analysis has its dialogue, and the project has committed to it.
unfoldable pub committed_analysis :
    Option SpeechAnalysis → Result LocalizationError (SpeechAnalysis × List Dialogue)
committed_analysis none = err analysis_not_committed
committed_analysis (some analysis) = elim analysis.dialogue_segments [
  | none ↦ err analysis_not_committed
  | some segments ↦
      if text_eq analysis.project_selection (some analysis.id)
      then ok (analysis, segments)
      else err analysis_not_committed
]

-- The reads up to the workspace: the analysis that the track is for.
unfoldable pub analysis_for :
    AccessContext
    → String
    → CreateTrack
    → Catalog
    → Result LocalizationError (SpeechAnalysis × List Dialogue)
unfolding is_speech_analysis is_succeeded
analysis_for context project_id input catalog = do
  job ← require job_not_found (
      find
        (λ (j : AnalysisJob).
          str_eq j.id input.speech_analysis_job_id
          && str_eq j.organization_id context.organization_id
          && str_eq j.project_id project_id)
        catalog.jobs)
  throw_if (not (is_speech_analysis job.kind)) not_speech_analysis
  throw_if (not (is_succeeded job.status)) analysis_not_succeeded
  found ← committed_analysis job.analysis
  throw_if (str_eq found.0.source_language_id input.target_language_id) same_language
  throw_if
      (not (
        length (
          keep
            (λ (t : TargetLanguage).
              str_eq t.project_id project_id && str_eq t.language_id input.target_language_id)
            catalog.target_languages)
        == 1))
      language_not_configured
  ok found

unfoldable pub is_workspace_of : AccessContext → String → LocalizationWorkspace → Bool
is_workspace_of context project_id workspace =
    str_eq workspace.organization_id context.organization_id
    && str_eq workspace.project_id project_id

unfoldable pub new_workspace : TrackEnv → AccessContext → String → String → LocalizationWorkspace
new_workspace env context project_id analysis_id = record {
  id =
      deterministic_localization_uuid env.sha256
        (join ("workspace:" ∷ context.organization_id ∷ ":" ∷ project_id ∷ ":" ∷ analysis_id ∷ []));
  organization_id = context.organization_id;
  project_id = project_id;
  speech_analysis_id = analysis_id;
  created_by_user_id = context.user_id;
}

-- The project's workspace, new where there is none, and refused where it is of another analysis.
unfoldable pub ensure_workspace :
    TrackEnv
    → AccessContext
    → String
    → SpeechAnalysis
    → Store
    → Result LocalizationError (LocalizationWorkspace × List LocalizationWorkspace)
ensure_workspace env context project_id analysis store =
    elim (find (is_workspace_of context project_id) store.workspaces) [
      | some workspace ↦
          if str_eq workspace.speech_analysis_id analysis.id
          then ok (workspace, store.workspaces)
          else err pinned_elsewhere
      | none ↦ ok (
        new_workspace env context project_id analysis.id,
        store.workspaces ++ new_workspace env context project_id analysis.id ∷ [],
      )
    ]

abbrev pub workspace_scope : AccessContext → String → String → Scope
workspace_scope context project_id workspace_id = record {
  organization_id = context.organization_id;
  project_id = project_id;
  workspace_id = workspace_id;
}

abbrev pub is_track_of : String → String → LocalizationTrack → Bool
is_track_of workspace_id language_id track =
    str_eq track.scope.workspace_id workspace_id && str_eq track.target_language_id language_id

unfoldable pub new_track : TrackEnv → AccessContext → String → String → String → LocalizationTrack
new_track env context project_id workspace_id language_id = record {
  id =
      deterministic_localization_uuid env.sha256
        (join ("track:" ∷ workspace_id ∷ ":" ∷ language_id ∷ []));
  scope = workspace_scope context project_id workspace_id;
  target_language_id = language_id;
  created_at = env.now;
  created_by_user_id = context.user_id;
}

-- `createMany`: each row is refused whose primary key is taken.
unfoldable pub insert_all {ℓ κ μ} :
    {K : Type ℓ} {P : Type κ} {X : Type μ}
    → List (Resource K P X)
    → List (Resource K P X)
    → Result LocalizationError (List (Resource K P X))
unfolding is_some
insert_all [] rows = ok rows
insert_all (row ∷ more) rows =
    let rest = insert_all more (rows ++ row ∷ []) in
    if is_some (find (λ (x : Resource _ _ _). str_eq x.id row.id) rows)
    then err unique_violation
    else rest

unfoldable pub bootstrap_store :
    TrackEnv
    → AccessContext
    → Scope
    → String
    → List Dialogue
    → Store
    → Result LocalizationError Store
bootstrap_store env context scope speech_analysis_id segments store = do
  rows ← bootstrap_workspace env context scope speech_analysis_id segments
  scenes ← insert_all rows.0 store.scenes
  dialogues ← insert_all rows.1 store.dialogues
  ok (record store { scenes = scenes; dialogues = dialogues })

-- The scenes and dialogues of the workspace, where it has no scene yet.
unfoldable pub ensure_scenes :
    TrackEnv
    → AccessContext
    → String
    → SpeechAnalysis
    → List Dialogue
    → LocalizationWorkspace
    → Store
    → Result LocalizationError Store
ensure_scenes env context project_id analysis segments workspace store =
    let present =
      length
        (keep (λ (s : LocalizationScene). str_eq s.scope.workspace_id workspace.id) store.scenes) in
    if present == 0
    then bootstrap_store env context (workspace_scope context project_id workspace.id) analysis.id
        segments store
    else ok store
