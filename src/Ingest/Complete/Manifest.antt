-- ===== src/Ingest/Complete/Manifest.antt =====
-- `persistCompletionManifest` of the media ingest service.
use mathlib.Core.List.{◌++◌}
use voice_verse_ai.Common.{
  ℕ, suc, Bool, true, false, not, ◌&&◌, ◌==◌, if◌then◌else◌, Option, none, some, String, List, [],
  ◌∷◌, map, keep, str_eq, Result, ok, err, ◌>>◌, throw_if,
}
use voice_verse_ai.Common.Sort.{sort_by}
use voice_verse_ai.Ingest.Types.{
  MultipartUploadStatus, completing, completed, Upload, CompletedPart, PersistedPart, Server,
  IngestError, manifest_differs, database_failure,
}
use voice_verse_ai.Ingest.Checks.{compare_parts}
use voice_verse_ai.Ingest.Tables.{find, update, has_upload_id}

unfoldable pub is_completed : MultipartUploadStatus → Bool
is_completed completed = true
is_completed _ = false

-- `matches`, where the lists are of one length: the loop stops at the end of either.
unfoldable pub same_manifest : List CompletedPart → List CompletedPart → Bool
same_manifest [] [] = true
same_manifest (persisted ∷ others) (supplied ∷ parts) =
    supplied.part_number == persisted.part_number
    && str_eq supplied.etag persisted.etag
    && same_manifest others parts
same_manifest _ _ = false

-- `part.byteSize ? BigInt(part.byteSize) : undefined`
unfoldable pub stored_size : Option ℕ → Option ℕ
stored_size (some (suc n)) = some (suc n)
stored_size _ = none

abbrev pub persisted_part : String → CompletedPart → PersistedPart
persisted_part upload_id part = record {
  multipart_upload_id = upload_id;
  part = record part { byte_size = stored_size part.byte_size };
}

-- The parts of an upload, in the order of their numbers.
unfoldable pub parts_of : String → List PersistedPart → List CompletedPart
parts_of upload_id parts =
    sort_by compare_parts (
      map (λ (p : PersistedPart). p.part)
        (keep (λ p. str_eq p.multipart_upload_id upload_id) parts))

abbrev pub set_status : String → MultipartUploadStatus → List Upload → List Upload
set_status upload_id status uploads =
    update (has_upload_id upload_id) (λ u. record u { status = status }) uploads

unfoldable pub write_manifest :
    String → List CompletedPart → List CompletedPart → Server → Result IngestError Server
write_manifest upload_id parts [] server = ok (record server {
  parts = server.parts ++ map (persisted_part upload_id) parts;
  uploads = set_status upload_id completing server.uploads;
})
write_manifest upload_id parts (first ∷ others) server = do
  throw_if (not (same_manifest (first ∷ others) parts)) manifest_differs
  ok (record server { uploads = set_status upload_id completing server.uploads })

unfoldable pub persist_completion_manifest :
    String → List CompletedPart → Server → Result IngestError Server
unfolding is_completed
persist_completion_manifest upload_id parts server =
    elim (find (has_upload_id upload_id) server.uploads) [
      | none ↦ err database_failure
      | some current ↦
          if is_completed current.status
          then ok server
          else write_manifest upload_id parts (parts_of upload_id server.parts) server
    ]
