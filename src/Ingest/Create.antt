-- ===== src/Ingest/Create.antt =====
-- `create` of the media ingest service. What other requests write between the checks and the
-- transaction is the argument `meanwhile`; the object storage's answer is the argument `provider`.
use Prim.Native.String.{◌++◌ as str_append}
use mathlib.Core.List.{◌++◌}
use voice_verse_ai.Common.{
  ℕ, ◌+◌, ◌-◌, ◌*◌, ◌/◌, Bool, true, false, not, ◌&&◌, ◌||◌, ltb, if◌then◌else◌, Option, none, some,
  String, [], ◌∷◌, str_eq, Result, ok, err, ◌>>=◌, ◌>>◌, throw_if,
}
use voice_verse_ai.Ingest.Types.{
  AccessContext, initiated, uploading, pending, ProjectStatus, ingesting, archived, Project, Video,
  Upload, StorageCall, create_multipart_upload, abort_multipart_upload, Server, Config, CreateInput,
  NormalizedUpload, UploadResponse, IngestError, invalid_project_id, invalid_idempotency_key,
  project_not_found, project_archived, project_has_video, too_many_parts,
  object_storage_unavailable, database_failure,
}
use voice_verse_ai.Ingest.Patterns.{matches_idempotency}
use voice_verse_ai.Ingest.Checks.{
  assert_can_edit, assert_uuid, normalize_upload, assert_idempotent_create_matches,
}
use voice_verse_ai.Ingest.Tables.{find, update, has_key, with_video, to_upload_response}

-- What `create` is given besides its arguments: the ids that it draws, the clock, the storage's
-- answer (none where it fails), and whether the transaction fails for a reason of its own.
pub record CreateEnv : Type 0 where
  pub nfc : String → String
  pub video_id : String
  pub upload_id : String
  pub now : ℕ
  pub provider : Option String
  pub fault : Bool
  pub meanwhile : Server → Server

-- What the checks decide: to answer from an earlier request, or to begin an upload of some parts.
pub data CreatePlan : Type 0 where
  replay : UploadResponse → CreatePlan
  begin : NormalizedUpload → (total_parts : ℕ) → CreatePlan

unfoldable pub ceil_div : ℕ → ℕ → ℕ
ceil_div a b = (a + (b - 1)) / b

unfoldable pub is_archived : ProjectStatus → Bool
is_archived archived = true
is_archived _ = false

abbrev pub in_project : String → Video → Bool
in_project project_id video = str_eq video.project_id project_id

unfoldable pub is_some {ℓ} : {A : Type ℓ} → Option A → Bool
is_some none = false
is_some (some a) = true

-- The answer to a key that was used before.
unfoldable pub replay_upload :
    String → NormalizedUpload → Server → Upload → Result IngestError UploadResponse
replay_upload project_id normalized server upload = do
  found ← with_video server upload
  assert_idempotent_create_matches found.1 project_id normalized
  ok (to_upload_response found.0 found.1)

unfoldable pub plan_upload :
    Config → AccessContext → String → NormalizedUpload → Server → Result IngestError CreatePlan
unfolding is_archived ceil_div
plan_upload config context project_id normalized server =
    let total_parts = ceil_div normalized.byte_size config.part_size in
    elim (find
      (λ (p : Project). str_eq p.id project_id && str_eq p.organization_id context.organization_id)
      server.projects) [
        | none ↦ err project_not_found
        | some project ↦ do
          throw_if (is_archived project.status) project_archived
          throw_if (is_some (find (in_project project_id) server.videos)) project_has_video
          throw_if (ltb 10000 total_parts) too_many_parts
          ok (begin normalized total_parts)
      ]

unfoldable pub plan_normalized :
    Config
    → AccessContext
    → String
    → String
    → Server
    → NormalizedUpload
    → Result IngestError CreatePlan
plan_normalized config context project_id key server normalized =
    elim (find (has_key context.organization_id key) server.uploads) [
      | some existing ↦ replay_upload project_id normalized server existing >>= λ r. ok (replay r)
      | none ↦ plan_upload config context project_id normalized server
    ]

-- The lines before the first id is drawn, and the part count.
unfoldable pub plan_create :
    Config
    → CreateEnv
    → AccessContext
    → String
    → String
    → CreateInput
    → Server
    → Result IngestError CreatePlan
plan_create config env context project_id key input server = do
  assert_can_edit context
  assert_uuid project_id invalid_project_id
  throw_if (not (matches_idempotency key)) invalid_idempotency_key
  normalize_upload env.nfc config.max_upload_bytes input
      >>= plan_normalized config context project_id key server

unfoldable pub storage_key_of : String → String → String → String
storage_key_of organization_id project_id video_id = str_append "tenants/" (
    str_append organization_id (
      str_append "/projects/"
        (str_append project_id (str_append "/source/" (str_append video_id "/original.mp4")))))

abbrev pub call_storage : StorageCall → Server → Server
call_storage call server = record server { storage_calls = server.storage_calls ++ call ∷ [] }

unfoldable pub created_video :
    Config → CreateEnv → AccessContext → String → NormalizedUpload → Video
created_video config env context project_id normalized = record {
  id = env.video_id;
  project_id = project_id;
  organization_id = context.organization_id;
  original_filename = normalized.filename;
  media_type = normalized.media_type;
  byte_size = normalized.byte_size;
  sha256 = normalized.sha256;
  storage_bucket = config.bucket;
  storage_key = storage_key_of context.organization_id project_id env.video_id;
  storage_etag = none;
  uploaded_at = none;
  ingest_status = uploading;
  security_status = pending;
}

unfoldable pub created_upload : Config → CreateEnv → AccessContext → String → ℕ → String → Upload
created_upload config env context key total_parts provider_upload_id = record {
  id = env.upload_id;
  organization_id = context.organization_id;
  video_id = env.video_id;
  idempotency_key = key;
  provider_upload_id = provider_upload_id;
  part_size = config.part_size;
  total_parts = total_parts;
  status = initiated;
  expires_at = env.now + config.upload_expiry_hours * 3600000;
  completed_at = none;
  aborted_at = none;
}

-- The rows of the transaction.
unfoldable pub insert_upload : AccessContext → Video → Upload → Server → Server
insert_upload context video upload server = record server {
  videos = server.videos ++ video ∷ [];
  uploads = server.uploads ++ upload ∷ [];
  projects =
      update (λ p. str_eq p.id video.project_id) (λ p. record p { status = ingesting })
        server.projects;
  audit =
      server.audit
      ++ record {
        action = "media.multipart_upload.created";
        actor_user_id = context.user_id;
        organization_id = context.organization_id;
        resource_id = upload.id;
      }
        ∷ [];
}

-- The unique indexes: one video for a project, one upload for a key of an organization.
unfoldable pub violates_unique : Video → Upload → Server → Bool
violates_unique video upload server =
    if is_some (find (in_project video.project_id) server.videos)
    then true
    else is_some (find (has_key upload.organization_id upload.idempotency_key) server.uploads)

-- The `catch` after the transaction: the stored upload is given up, and the winner answers.
unfoldable pub after_failure :
    AccessContext
    → String
    → String
    → NormalizedUpload
    → Bool
    → Server
    → Result IngestError UploadResponse
after_failure context project_id key normalized is_unique_violation server =
    elim (find (has_key context.organization_id key) server.uploads) [
      | some winner ↦ replay_upload project_id normalized server winner
      | none ↦ err (if is_unique_violation then project_has_video else database_failure)
    ]

-- The answer after a failed transaction, once the storage was told.
abbrev pub give_up :
    AccessContext
    → NormalizedUpload
    → Bool
    → Video
    → Upload
    → Server
    → Server × Result IngestError UploadResponse
give_up context normalized conflict video upload server = (
  server,
  after_failure context video.project_id upload.idempotency_key normalized conflict server,
)

unfoldable pub commit_create :
    CreateEnv
    → AccessContext
    → NormalizedUpload
    → Video
    → Upload
    → Server
    → Server × Result IngestError UploadResponse
commit_create env context normalized video upload server =
    let conflict = violates_unique video upload server in
    if conflict || env.fault
    then give_up context normalized conflict video upload
        (call_storage (abort_multipart_upload upload.provider_upload_id video.storage_key) server)
    else (insert_upload context video upload server, ok (to_upload_response upload video))

unfoldable pub begin_upload :
    Config
    → CreateEnv
    → AccessContext
    → String
    → String
    → NormalizedUpload
    → ℕ
    → Server
    → Server × Result IngestError UploadResponse
begin_upload config env context project_id key normalized total_parts server =
    let video = created_video config env context project_id normalized in
    let called = call_storage (create_multipart_upload video.storage_key) server in
    elim env.provider [
      | none ↦ (called, err object_storage_unavailable)
      | some provider_upload_id ↦
          commit_create env context normalized video
            (created_upload config env context key total_parts provider_upload_id)
            (env.meanwhile called)
    ]

unfoldable pub run_plan :
    Config
    → CreateEnv
    → AccessContext
    → String
    → String
    → Server
    → Result IngestError CreatePlan
    → Server × Result IngestError UploadResponse
run_plan config env context project_id key server (err e) = (server, err e)
run_plan config env context project_id key server (ok (replay response)) = (server, ok response)
run_plan config env context project_id key server (ok (begin normalized total_parts)) =
    begin_upload config env context project_id key normalized total_parts server

unfoldable pub create :
    Config
    → CreateEnv
    → AccessContext
    → String
    → String
    → CreateInput
    → Server
    → Server × Result IngestError UploadResponse
create config env context project_id key input server =
    run_plan config env context project_id key server
      (plan_create config env context project_id key input server)
