-- ===== src/Ingest/Tests.antt =====
-- Runs of the media ingest service, and the theorems at concrete inputs.
use Prim.Native.String.{String}
use voice_verse_ai.Common.{
  ℕ, ◌≡◌, refl, ◌≤◌, ◌<◌, true, false, none, some, List, [], ◌∷◌, length, ok, err, arith, str_eq,
  Bool-cases, inl, inr, subst,
}
use voice_verse_ai.Common.Sort.{sort_by}
use voice_verse_ai.Common.Text.{decimal}
use voice_verse_ai.Ingest.Types.{
  AccessContext, editor, Server, Config, CreateInput, UploadResponse, draft, CompletedPart, Upload,
  Video, initiated, completed, uploading, pending, uploaded, no_longer_writable, database_failure,
}
use voice_verse_ai.Ingest.Checks.{
  expected_part_size, assert_complete_manifest, assert_can_edit, assert_uuid, normalize_upload,
  assert_upload_accepts_parts, compare_parts,
}
use voice_verse_ai.Ingest.Patterns.{matches_idempotency, matches_uuid}
use voice_verse_ai.Ingest.Tables.{
  find, update, has_upload_id, with_video, owned_upload, to_upload_response,
}
use voice_verse_ai.Ingest.Create.{
  CreateEnv, ceil_div, is_some, plan_create, plan_normalized, plan_upload, begin_upload,
  commit_create, created_video, created_upload, violates_unique, after_failure, run_plan, create,
}
use voice_verse_ai.Ingest.Complete.{
  CompleteEnv, is_completed, complete, complete_found, complete_parts, check_complete,
  persist_completion_manifest, write_manifest, parts_of, settle, settle_persisted, stored_object,
  or_value, finalize_upload, finish_upload,
}
use voice_verse_ai.Ingest.Access.{sign_parts, abort, abort_found}
use voice_verse_ai.Ingest.Sizes.{
  sizes_upto, part_sizes, IsNumbered, stated_total, accepted_manifest,
}
use voice_verse_ai.Ingest.Owned.{is_owned}
use voice_verse_ai.Ingest.Refused.{SameTables, create_refused}
use voice_verse_ai.Ingest.Again.{create_again}
use voice_verse_ai.Ingest.Closed.{abort_closes}
use voice_verse_ai.Ingest.Completed.{IsKeyed, complete_again}
use voice_verse_ai.Ingest.Once.{IsQueuedOnce, finalize_upload-IsQueuedOnce}

abbrev project : String
project = "019f1a2b-3c4d-7e5f-8a6b-7c8d9e0f1a2b"

abbrev upload_one : String
upload_one = "019f1a2b-3c4d-7e5f-8a6b-7c8d9e0f1a2c"

abbrev context : AccessContext
context = record { user_id = "user"; organization_id = "org"; role = editor }

abbrev config : Config
config = record {
  bucket = "media";
  part_size = 10;
  max_upload_bytes = 1000;
  upload_expiry_hours = 1;
  signed_url_ttl_seconds = 60;
}

abbrev empty : Server
empty = record {
  projects = record { id = project; organization_id = "org"; status = draft } ∷ [];
  videos = [];
  uploads = [];
  parts = [];
  scans = [];
  requests = [];
  audit = [];
  storage_calls = [];
}

abbrev movie : CreateInput
movie = record { filename = " movie.mp4"; media_type = "Video/MP4"; byte_size = 25; sha256 = none }

abbrev drawing : CreateEnv
drawing = record {
  nfc = λ s. s;
  video_id = "video-1";
  upload_id = upload_one;
  now = 5;
  provider = some "provider-1";
  fault = false;
  meanwhile = λ s. s;
}

abbrev redrawing : CreateEnv
redrawing = record drawing { video_id = "video-2"; provider = none }

part_sizes_example :
    (sizes_upto 25 10 (ceil_div 25 10) (ceil_div 25 10) ≡ 25)
    × ((n : ℕ)
        → 0 < n
        → n ≤ ceil_div 25 10
        → (0 < expected_part_size 25 10 (ceil_div 25 10) n)
          × (expected_part_size 25 10 (ceil_div 25 10) n ≤ 10))
part_sizes_example = part_sizes 25 10 (omega arith) (omega arith)

abbrev part : ℕ → ℕ → CompletedPart
part n size = record { part_number = n; etag = "e"; byte_size = some size; checksum_sha256 = none }

abbrev parts : List CompletedPart
parts = part 1 10 ∷ part 2 10 ∷ part 3 5 ∷ []

parts-accepted : assert_complete_manifest parts (ceil_div 25 10) 25 10 ≡ ok tt
unfolding assert_complete_manifest ceil_div
parts-accepted = refl

accepted_manifest_example :
    (length parts ≡ ceil_div 25 10)
    × IsNumbered 0 parts
    × (stated_total 25 10 (ceil_div 25 10) parts ≡ 25)
accepted_manifest_example = accepted_manifest 25 10 parts (omega arith) (omega arith) parts-accepted

abbrev first_answer : UploadResponse
first_answer = record {
  aborted_at = none;
  completed_at = none;
  expires_at = 3600005;
  id = upload_one;
  part_size = 10;
  status = initiated;
  total_parts = 3;
  video = record {
    byte_size = "25";
    id = "video-1";
    ingest_status = uploading;
    media_type = "video/mp4";
    original_filename = "movie.mp4";
    project_id = project;
    security_status = pending;
  };
}

abbrev video_row : Video
video_row = record {
  id = "video-1";
  project_id = project;
  organization_id = "org";
  original_filename = "movie.mp4";
  media_type = "video/mp4";
  byte_size = 25;
  sha256 = none;
  storage_bucket = "media";
  storage_key = "key";
  storage_etag = none;
  uploaded_at = none;
  ingest_status = uploading;
  security_status = pending;
}

abbrev upload_row : Upload
upload_row = record {
  id = upload_one;
  organization_id = "org";
  video_id = "video-1";
  idempotency_key = "upload-1";
  provider_upload_id = "provider-1";
  part_size = 10;
  total_parts = 3;
  status = initiated;
  expires_at = 3600005;
  completed_at = none;
  aborted_at = none;
}

-- The upload of another project is under way.
abbrev busy : Server
busy = record empty {
  videos = record video_row { id = "video-0"; project_id = upload_one } ∷ [];
  uploads =
      record upload_row {
        id = "019f1a2b-3c4d-7e5f-8a6b-7c8d9e0f1a2d";
        video_id = "video-0";
        idempotency_key = "upload-0";
      }
      ∷ [];
}

movie_created :
    create config drawing context project "upload-1" movie busy
    ≡ ((create config drawing context project "upload-1" movie busy).0, ok first_answer)
unfolding create run_plan plan_create plan_normalized plan_upload assert_can_edit assert_uuid
    matches_uuid matches_idempotency normalize_upload find is_some ceil_div begin_upload
    commit_create created_video created_upload violates_unique to_upload_response decimal
movie_created = refl

create_again_example :
    create config redrawing context project "upload-1" movie
      (create config drawing context project "upload-1" movie busy).0
    ≡ ((create config drawing context project "upload-1" movie busy).0, ok first_answer)
create_again_example =
    create_again config context project "upload-1" drawing redrawing movie busy
      (create config drawing context project "upload-1" movie busy).0 first_answer refl
      (λ call. busy-new) movie_created
  where
    busy-new : find (λ v. str_eq v.id "video-1") busy.videos ≡ none
    busy-new = unfold find in refl

abbrev started : Server
started = record empty { videos = video_row ∷ []; uploads = upload_row ∷ [] }

abbrev quiet : CompleteEnv
quiet = record {
  now = 7;
  completion = some (some "etag");
  head = some (record { byte_size = 25; etag = none });
  head_again = none;
  scan_id = "scan-1";
  request_id = "request-1";
  before_persist = λ s. s;
  before_settle = λ s. s;
}

abbrev last_answer : UploadResponse
last_answer = record first_answer {
  completed_at = some 7;
  status = completed;
  video = record {
    byte_size = "25";
    id = "video-1";
    ingest_status = uploaded;
    media_type = "video/mp4";
    original_filename = "movie.mp4";
    project_id = project;
    security_status = pending;
  };
}

movie_completed :
    complete quiet context upload_one parts started
    ≡ ((complete quiet context upload_one parts started).0, ok last_answer)
unfolding complete owned_upload assert_uuid matches_uuid find with_video complete_found
    check_complete assert_upload_accepts_parts assert_complete_manifest sort_by compare_parts
    complete_parts persist_completion_manifest is_completed parts_of write_manifest update
    settle_persisted settle stored_object or_value finalize_upload finish_upload to_upload_response
    decimal
movie_completed = refl

complete_again_example :
    (is_completed last_answer.status ≡ true)
    × ((later : CompleteEnv) (others : List CompletedPart)
        → complete later context upload_one others
            (complete quiet context upload_one parts started).0
          ≡ ((complete quiet context upload_one parts started).0, ok last_answer))
complete_again_example =
    complete_again context upload_one quiet parts started
      (complete quiet context upload_one parts started).0 last_answer
      (record { persist = λ s. refl; settle = λ s. refl }) only_one movie_completed
  where
    only_one : IsKeyed upload_one started
    only_one c u h =
        unfold find in
        elim (Bool-cases (is_owned c upload_one upload_row)) [
          | inl e ↦
              let same : upload_row ≡ u = cc (rw e at h) in
              subst (λ z. find (has_upload_id z.id) started.uploads ≡ some z) same refl
          | inr e ↦ absurd (cc (rw e at h))
        ]

movie_aborted :
    abort 9 (λ s. s) context upload_one started
    ≡ ((abort 9 (λ s. s) context upload_one started).0, ok tt)
unfolding abort owned_upload assert_uuid matches_uuid find with_video abort_found
movie_aborted = refl

abort_closes_example :
    ((env : CompleteEnv) (ps : List CompletedPart)
      → complete env context upload_one ps (abort 9 (λ s. s) context upload_one started).0
        ≡ ((abort 9 (λ s. s) context upload_one started).0, err no_longer_writable))
    × ((settings : Config) (sign : Upload → Video → ℕ → ℕ → String) (later : ℕ) (ns : List ℕ)
        → sign_parts settings sign later context upload_one ns
            (abort 9 (λ s. s) context upload_one started).0
          ≡ err no_longer_writable)
    × ((later : ℕ)
        → abort later (λ s. s) context upload_one (abort 9 (λ s. s) context upload_one started).0
          ≡ ((abort 9 (λ s. s) context upload_one started).0, ok tt))
abort_closes_example =
    abort_closes context upload_one 9 started (abort 9 (λ s. s) context upload_one started).0
      movie_aborted

finalize_upload-IsQueuedOnce_example :
    IsQueuedOnce (finalize_upload quiet context upload_row video_row none started).0
finalize_upload-IsQueuedOnce_example =
    finalize_upload-IsQueuedOnce quiet context upload_row video_row none started
      (record { scans = λ v. omega arith; requests = λ k. omega arith })

abbrev refused_env : CreateEnv
refused_env = record drawing { fault = true; meanwhile = λ s. s }

movie_refused :
    create config refused_env context project "upload-1" movie empty
    ≡ ((create config refused_env context project "upload-1" movie empty).0, err database_failure)
unfolding create run_plan plan_create plan_normalized plan_upload assert_can_edit assert_uuid
    matches_uuid matches_idempotency normalize_upload find is_some ceil_div begin_upload
    commit_create created_video created_upload violates_unique after_failure
movie_refused = refl

create_refused_example :
    SameTables empty (create config refused_env context project "upload-1" movie empty).0
create_refused_example =
    create_refused config refused_env context project "upload-1" movie empty
      (create config refused_env context project "upload-1" movie empty).0 database_failure
      (λ s. refl) movie_refused
