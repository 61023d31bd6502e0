-- ===== src/Ingest/Tables.antt =====
-- What the media ingest service reads of the tables, and its response.
use voice_verse_ai.Common.{
  Bool, ◌&&◌, if◌then◌else◌, Option, none, some, String, List, [], ◌∷◌, str_eq, Result, ok, err,
  ◌>>◌,
}
use voice_verse_ai.Common.Text.{decimal}
use voice_verse_ai.Ingest.Types.{
  AccessContext, Video, Upload, UploadResponse, Server, IngestError, invalid_upload_id,
  upload_not_found, inconsistent_result,
}
use voice_verse_ai.Ingest.Checks.{assert_uuid}

-- The first element that passes the test.
unfoldable pub find {ℓ} : {A : Type ℓ} → (A → Bool) → List A → Option A
find p [] = none
find p (x ∷ xs) = if p x then some x else find p xs

-- The elements that pass the test are changed.
unfoldable pub update {ℓ} : {A : Type ℓ} → (A → Bool) → (A → A) → List A → List A
update p f [] = []
update p f (x ∷ xs) = (if p x then f x else x) ∷ update p f xs

abbrev pub has_upload_id : String → Upload → Bool
has_upload_id id upload = str_eq upload.id id

abbrev pub has_video_id : String → Video → Bool
has_video_id id video = str_eq video.id id

-- `include: { video: true }`
unfoldable pub with_video : Server → Upload → Result IngestError (Upload × Video)
with_video server upload = elim (find (has_video_id upload.video_id) server.videos) [
  | none ↦ err inconsistent_result
  | some video ↦ ok (upload, video)
]

abbrev pub has_key : String → String → Upload → Bool
has_key organization_id key upload =
    str_eq upload.organization_id organization_id && str_eq upload.idempotency_key key

unfoldable pub owned_upload : AccessContext → String → Server → Result IngestError (Upload × Video)
owned_upload context upload_id server = do
  assert_uuid upload_id invalid_upload_id
  elim (find
      (λ (u : Upload). str_eq u.id upload_id && str_eq u.organization_id context.organization_id)
      server.uploads) [ none ↦ err upload_not_found | some upload ↦ with_video server upload ]

unfoldable pub to_upload_response : Upload → Video → UploadResponse
to_upload_response upload video = record {
  aborted_at = upload.aborted_at;
  completed_at = upload.completed_at;
  expires_at = upload.expires_at;
  id = upload.id;
  part_size = upload.part_size;
  status = upload.status;
  total_parts = upload.total_parts;
  video = record {
    byte_size = decimal video.byte_size;
    id = video.id;
    ingest_status = video.ingest_status;
    media_type = video.media_type;
    original_filename = video.original_filename;
    project_id = video.project_id;
    security_status = video.security_status;
  };
}
