-- ===== src/Ingest/Complete.antt =====
-- `complete` of the media ingest service, with `persistCompletionManifest` and `finalizeUpload`.
-- Other requests write before each of its two transactions: `before_persist`, `before_settle`.
use Prim.Native.String.{◌++◌ as str_append}
use mathlib.Core.List.{◌++◌}
use voice_verse_ai.Common.{
  ℕ, suc, Bool, true, false, not, ◌&&◌, ◌==◌, if◌then◌else◌, Option, none, some, String, List, [],
  ◌∷◌, map, keep, str_eq, Result, ok, err, ◌>>◌, throw_if,
}
use voice_verse_ai.Common.Sort.{sort_by}
use voice_verse_ai.Ingest.Types.{
  AccessContext, MultipartUploadStatus, completing, completed, failed, uploaded, ingest_failed,
  pending, Video, Upload, CompletedPart, PersistedPart, QueuedScan, ScanRequest, StorageCall,
  complete_multipart_upload, head_object, Server, StoredObject, UploadResponse, IngestError,
  manifest_differs, size_mismatch, object_storage_unavailable, database_failure,
}
use voice_verse_ai.Ingest.Checks.{
  Checked, assert_upload_accepts_parts, assert_complete_manifest, compare_parts,
}
use voice_verse_ai.Ingest.Tables.{
  find, update, has_upload_id, has_video_id, owned_upload, to_upload_response,
}
mod Manifest
unfoldable pub use Manifest.*

-- The storage's answers are none where it fails; the first is the ETag of the completion.
pub record CompleteEnv : Type 0 where
  pub now : ℕ
  pub completion : Option (Option String)
  pub head : Option StoredObject
  pub head_again : Option StoredObject
  pub scan_id : String
  pub request_id : String
  pub before_persist : Server → Server
  pub before_settle : Server → Server

abbrev pub scan_of : String → QueuedScan → Bool
scan_of video_id scan = str_eq scan.video_id video_id && scan.attempt_number == 1

-- `upsert` of the first scan attempt: the table, and the row's id.
unfoldable pub upsert_scan : String → String → List QueuedScan → List QueuedScan × String
upsert_scan scan_id video_id scans = elim (find (scan_of video_id) scans) [
  | some scan ↦ (scans, scan.id)
  | none ↦ (scans ++ record { id = scan_id; video_id = video_id; attempt_number = 1 } ∷ [], scan_id)
]

unfoldable pub request_key : String → String
request_key video_id = str_append "media.scan.requested:" (str_append video_id ":1")

abbrev pub has_request_key : String → ScanRequest → Bool
has_request_key key request = str_eq request.deduplication_key key

unfoldable pub upsert_request : ScanRequest → List ScanRequest → List ScanRequest
upsert_request request requests = elim (find (has_request_key request.deduplication_key) requests) [
  | some _ ↦ requests
  | none ↦ requests ++ request ∷ []
]

abbrev pub complete_row : ℕ → Upload → Upload
complete_row now upload = record upload { status = completed; completed_at = some now }

abbrev pub uploaded_row : ℕ → Option String → Video → Video
uploaded_row now etag video = record video {
  ingest_status = uploaded;
  security_status = pending;
  storage_etag = etag;
  uploaded_at = some now;
}

-- The transaction of `finalizeUpload`, once the two rows that it returns are written.
unfoldable pub queue_scan : CompleteEnv → AccessContext → Upload → Video → Server → Server
queue_scan env context upload video server =
    let scan = upsert_scan env.scan_id video.id server.scans in
    record server {
      scans = scan.0;
      requests =
          upsert_request
            (record {
              id = env.request_id;
              deduplication_key = request_key video.id;
              attempt_id = scan.1;
              bucket = video.storage_bucket;
              key = video.storage_key;
              organization_id = context.organization_id;
              video_id = video.id;
            })
            server.requests;
      audit =
          server.audit
          ++ record {
            action = "media.multipart_upload.completed";
            actor_user_id = context.user_id;
            organization_id = context.organization_id;
            resource_id = upload.id;
          }
            ∷ [];
    }

-- The two updates of the transaction.
abbrev pub write_rows : ℕ → Upload → Video → Option String → Server → Server
write_rows now upload video etag server = record server {
  uploads = update (has_upload_id upload.id) (complete_row now) server.uploads;
  videos = update (has_video_id video.id) (uploaded_row now etag) server.videos;
}

-- An update of a row that is not there fails, and with it the transaction.
unfoldable pub finish_upload :
    CompleteEnv
    → AccessContext
    → Server
    → Server
    → Option Upload
    → Option Video
    → Server × Result IngestError UploadResponse
finish_upload env context server written (some upload) (some video) =
    (queue_scan env context upload video written, ok (to_upload_response upload video))
finish_upload env context server written _ _ = (server, err database_failure)

unfoldable pub finalize_upload :
    CompleteEnv
    → AccessContext
    → Upload
    → Video
    → Option String
    → Server
    → Server × Result IngestError UploadResponse
finalize_upload env context upload video etag server =
    let written = write_rows env.now upload video etag server in
    finish_upload env context server written (find (has_upload_id upload.id) written.uploads)
      (find (has_video_id video.id) written.videos)

-- The `try` around the storage's calls: the completion's ETag, and the object that is there.
unfoldable pub stored_object : CompleteEnv → Option (Option String × StoredObject)
stored_object env = elim env.completion [
  | none ↦ elim env.head_again [ none ↦ none | some stored ↦ some (none, stored) ]
  | some etag ↦ elim env.head [
    | some stored ↦ some (etag, stored)
    | none ↦ elim env.head_again [ none ↦ none | some stored ↦ some (etag, stored) ]
  ]
]

unfoldable pub storage_calls_of :
    CompleteEnv → Upload → Video → List CompletedPart → List StorageCall
storage_calls_of env upload video parts =
    complete_multipart_upload upload.provider_upload_id parts
    ∷ head_object video.storage_key
    ∷ elim env.completion [
      | none ↦ []
      | some _ ↦ elim env.head [ some _ ↦ [] | none ↦ head_object video.storage_key ∷ [] ]
    ]

-- `a ?? b`
unfoldable pub or_value : Option String → Option String → Option String
or_value none b = b
or_value (some a) b = some a

abbrev pub fail_rows : Upload → Video → Server → Server
fail_rows upload video server = record server {
  uploads = set_status upload.id failed server.uploads;
  videos =
      update (has_video_id video.id) (λ v. record v { ingest_status = ingest_failed })
        server.videos;
}

-- After the storage's answers.
unfoldable pub settle :
    CompleteEnv
    → AccessContext
    → Upload
    → Video
    → Option (Option String × StoredObject)
    → Server
    → Server × Result IngestError UploadResponse
unfolding or_value
settle env context upload video none server = (server, err object_storage_unavailable)
settle env context upload video (some (etag, stored)) server =
    if stored.byte_size == video.byte_size
    then finalize_upload env context upload video (or_value etag stored.etag) server
    else (fail_rows upload video server, err size_mismatch)

-- After the first transaction.
unfoldable pub settle_persisted :
    CompleteEnv
    → AccessContext
    → Upload
    → Video
    → List CompletedPart
    → Server
    → Result IngestError Server
    → Server × Result IngestError UploadResponse
settle_persisted env context upload video parts server (err e) = (server, err e)
settle_persisted env context upload video parts server (ok persisted) =
    settle env context upload video (stored_object env) (
      env.before_settle (record persisted {
        storage_calls = persisted.storage_calls ++ storage_calls_of env upload video parts;
      }))

unfoldable pub complete_parts :
    CompleteEnv
    → AccessContext
    → Upload
    → Video
    → List CompletedPart
    → Server
    → Server × Result IngestError UploadResponse
complete_parts env context upload video parts server =
    let now = env.before_persist server in
    settle_persisted env context upload video parts now
      (persist_completion_manifest upload.id parts now)

unfoldable pub check_complete : CompleteEnv → Upload → Video → List CompletedPart → Checked
check_complete env upload video parts = do
  assert_upload_accepts_parts env.now true upload
  assert_complete_manifest parts upload.total_parts video.byte_size upload.part_size

-- After the checks.
unfoldable pub complete_checked :
    CompleteEnv
    → AccessContext
    → List CompletedPart
    → Upload
    → Video
    → Server
    → Checked
    → Server × Result IngestError UploadResponse
complete_checked env context ordered upload video server (err e) = (server, err e)
complete_checked env context ordered upload video server (ok _) =
    complete_parts env context upload video ordered server

unfoldable pub complete_found :
    CompleteEnv
    → AccessContext
    → List CompletedPart
    → Upload
    → Video
    → Server
    → Server × Result IngestError UploadResponse
unfolding is_completed complete_checked
complete_found env context parts upload video server =
    let ordered = sort_by compare_parts parts in
    if is_completed upload.status
    then (server, ok (to_upload_response upload video))
    else complete_checked env context ordered upload video server
        (check_complete env upload video ordered)

unfoldable pub complete :
    CompleteEnv
    → AccessContext
    → String
    → List CompletedPart
    → Server
    → Server × Result IngestError UploadResponse
complete env context upload_id parts server = elim (owned_upload context upload_id server) [
  | err e ↦ (server, err e)
  | ok found ↦ complete_found env context parts found.0 found.1 server
]
