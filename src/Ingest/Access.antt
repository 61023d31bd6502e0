-- ===== src/Ingest/Access.antt =====
-- `signParts`, `status` and `abort` of the media ingest service. Other requests write between the
-- check of `abort` and its transaction: the argument `meanwhile`.
use mathlib.Core.List.{◌++◌}
use voice_verse_ai.Common.{
  ℕ, false, ltb, some, String, List, [], ◌∷◌, map, Result, ok, err, ◌>>=◌, ◌>>◌, throw_if,
}
use voice_verse_ai.Ingest.Types.{
  AccessContext, MultipartUploadStatus, completed, aborted, ingest_aborted, Video, Upload,
  abort_multipart_upload, Server, Config, UploadResponse, IngestError, part_exceeds_count,
  completed_cannot_be_aborted,
}
use voice_verse_ai.Ingest.Checks.{Checked, assert_upload_accepts_parts, expected_part_size}
use voice_verse_ai.Ingest.Tables.{
  update, has_upload_id, has_video_id, owned_upload, to_upload_response,
}

pub record SignedPart : Type 0 where
  pub content_length : ℕ
  pub part_number : ℕ
  pub url : String

pub record SignedParts : Type 0 where
  pub expires_in_seconds : ℕ
  pub parts : List SignedPart

unfoldable pub assert_part_numbers : ℕ → List ℕ → Checked
assert_part_numbers total_parts [] = ok tt
assert_part_numbers total_parts (n ∷ ns) = do
  throw_if (ltb total_parts n) (part_exceeds_count n)
  assert_part_numbers total_parts ns

-- The storage's `signUploadPart` is the argument `sign`.
unfoldable pub sign_part : (ℕ → ℕ → String) → Upload → Video → ℕ → SignedPart
unfolding expected_part_size
sign_part sign upload video part_number =
    let content_length =
      expected_part_size video.byte_size upload.part_size upload.total_parts part_number in
    record {
      content_length = content_length;
      part_number = part_number;
      url = sign part_number content_length;
    }

unfoldable pub sign_parts :
    Config
    → (Upload → Video → ℕ → ℕ → String)
    → ℕ
    → AccessContext
    → String
    → List ℕ
    → Server
    → Result IngestError SignedParts
sign_parts config sign now context upload_id part_numbers server = do
  found ← owned_upload context upload_id server
  assert_upload_accepts_parts now false found.0
  assert_part_numbers found.0.total_parts part_numbers
  ok (record {
    expires_in_seconds = config.signed_url_ttl_seconds;
    parts = map (sign_part (sign found.0 found.1) found.0 found.1) part_numbers;
  })

unfoldable pub status : AccessContext → String → Server → Result IngestError UploadResponse
status context upload_id server = do
  found ← owned_upload context upload_id server
  ok (to_upload_response found.0 found.1)

abbrev pub aborted_upload : ℕ → Upload → Upload
aborted_upload now upload = record upload { status = aborted; aborted_at = some now }

abbrev pub aborted_video : Video → Video
aborted_video video = record video { ingest_status = ingest_aborted }

unfoldable pub abort_rows : ℕ → AccessContext → Upload → Video → Server → Server
abort_rows now context upload video server = record server {
  uploads = update (has_upload_id upload.id) (aborted_upload now) server.uploads;
  videos = update (has_video_id video.id) aborted_video server.videos;
  audit =
      server.audit
      ++ record {
        action = "media.multipart_upload.aborted";
        actor_user_id = context.user_id;
        organization_id = context.organization_id;
        resource_id = upload.id;
      }
        ∷ [];
}

-- The branches of `abort` on the status that it read.
unfoldable pub abort_found :
    MultipartUploadStatus
    → ℕ
    → (Server → Server)
    → AccessContext
    → Upload
    → Video
    → Server
    → Server × Checked
abort_found aborted now meanwhile context upload video server = (server, ok tt)
abort_found completed now meanwhile context upload video server =
    (server, err completed_cannot_be_aborted)
abort_found _ now meanwhile context upload video server = (
  abort_rows now context upload video (
      meanwhile (record server {
        storage_calls =
            server.storage_calls
            ++ abort_multipart_upload upload.provider_upload_id video.storage_key ∷ [];
      })),
  ok tt,
)

unfoldable pub abort : ℕ → (Server → Server) → AccessContext → String → Server → Server × Checked
abort now meanwhile context upload_id server = elim (owned_upload context upload_id server) [
  | err e ↦ (server, err e)
  | ok found ↦ abort_found found.0.status now meanwhile context found.0 found.1 server
]
