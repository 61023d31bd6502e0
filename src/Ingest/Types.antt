-- ===== src/Ingest/Types.antt =====
-- The rows, requests and errors of the media ingest service. A row has the columns that the service
-- reads or writes. Times are milliseconds; `toISOString` of the response is left to its reader.
use voice_verse_ai.Common.{ℕ, String, Option, List}

pub data OrganizationRole : Type 0 where
  owner admin editor viewer : OrganizationRole

pub record AccessContext : Type 0 where
  pub user_id : String
  pub organization_id : String
  pub role : OrganizationRole

pub data MultipartUploadStatus : Type 0 where
  initiated completing completed aborted expired failed : MultipartUploadStatus

pub data VideoIngestStatus : Type 0 where
  awaiting_upload uploading uploaded ingest_aborted ingest_failed : VideoIngestStatus

pub data MediaSecurityStatus : Type 0 where
  pending scanning clean infected security_error : MediaSecurityStatus

pub data ProjectStatus : Type 0 where
  draft ingesting processing ready project_failed archived : ProjectStatus

pub record Project : Type 0 where
  pub id : String
  pub organization_id : String
  pub status : ProjectStatus

pub record Video : Type 0 where
  pub id : String
  pub project_id : String
  pub organization_id : String
  pub original_filename : String
  pub media_type : String
  pub byte_size : ℕ
  pub sha256 : Option String
  pub storage_bucket : String
  pub storage_key : String
  pub storage_etag : Option String
  pub uploaded_at : Option ℕ
  pub ingest_status : VideoIngestStatus
  pub security_status : MediaSecurityStatus

pub record Upload : Type 0 where
  pub id : String
  pub organization_id : String
  pub video_id : String
  pub idempotency_key : String
  pub provider_upload_id : String
  pub part_size : ℕ
  pub total_parts : ℕ
  pub status : MultipartUploadStatus
  pub expires_at : ℕ
  pub completed_at : Option ℕ
  pub aborted_at : Option ℕ

-- A part as the client reports it.
pub record CompletedPart : Type 0 where
  pub part_number : ℕ
  pub etag : String
  pub byte_size : Option ℕ
  pub checksum_sha256 : Option String

pub record PersistedPart : Type 0 where
  pub multipart_upload_id : String
  pub part : CompletedPart

-- The first scan attempt of a video, queued.
pub record QueuedScan : Type 0 where
  pub id : String
  pub video_id : String
  pub attempt_number : ℕ

pub record ScanRequest : Type 0 where
  pub id : String
  pub deduplication_key : String
  pub attempt_id : String
  pub bucket : String
  pub key : String
  pub organization_id : String
  pub video_id : String

pub record AuditEntry : Type 0 where
  pub action : String
  pub actor_user_id : String
  pub organization_id : String
  pub resource_id : String

-- A request to the object storage.
pub data StorageCall : Type 0 where
  create_multipart_upload : (key : String) → StorageCall
  complete_multipart_upload :
      (provider_upload_id : String) (parts : List CompletedPart) → StorageCall
  head_object : (key : String) → StorageCall
  abort_multipart_upload : (provider_upload_id key : String) → StorageCall

-- The tables, and the requests that the object storage has been sent.
pub record Server : Type 0 where
  pub projects : List Project
  pub videos : List Video
  pub uploads : List Upload
  pub parts : List PersistedPart
  pub scans : List QueuedScan
  pub requests : List ScanRequest
  pub audit : List AuditEntry
  pub storage_calls : List StorageCall

pub record Config : Type 0 where
  pub bucket : String
  pub part_size : ℕ
  pub max_upload_bytes : ℕ
  pub upload_expiry_hours : ℕ
  pub signed_url_ttl_seconds : ℕ

pub record CreateInput : Type 0 where
  pub filename : String
  pub media_type : String
  pub byte_size : ℕ
  pub sha256 : Option String

-- `normalizeUpload` returns this.
pub record NormalizedUpload : Type 0 where
  pub byte_size : ℕ
  pub filename : String
  pub media_type : String
  pub sha256 : Option String

pub record StoredObject : Type 0 where
  pub byte_size : ℕ
  pub etag : Option String

pub record VideoResponse : Type 0 where
  pub byte_size : String
  pub id : String
  pub ingest_status : VideoIngestStatus
  pub media_type : String
  pub original_filename : String
  pub project_id : String
  pub security_status : MediaSecurityStatus

pub record UploadResponse : Type 0 where
  pub aborted_at : Option ℕ
  pub completed_at : Option ℕ
  pub expires_at : ℕ
  pub id : String
  pub part_size : ℕ
  pub status : MultipartUploadStatus
  pub total_parts : ℕ
  pub video : VideoResponse

-- One constructor for each exception that the service throws. `inconsistent_result` is the database
-- client's, for a row that names a missing video; `database_failure` is any other failure of it.
pub data IngestError : Type 0 where
  role_cannot_upload invalid_project_id invalid_upload_id invalid_idempotency_key : IngestError
  invalid_filename unsupported_media_type upload_too_large : IngestError
  project_not_found project_archived project_has_video too_many_parts : IngestError
  key_already_used upload_not_found no_longer_writable upload_expired : IngestError
  part_exceeds_count unexpected_part_size : (part_number : ℕ) → IngestError
  parts_missing parts_not_contiguous manifest_differs : IngestError
  size_mismatch completed_cannot_be_aborted object_storage_unavailable : IngestError
  inconsistent_result database_failure : IngestError
