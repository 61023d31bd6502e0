-- ===== src/Ingest/Checks.antt =====
-- The checks of the media ingest service: `normalizeUpload` and the `assert…` methods. NFC
-- normalization is the language's, and an argument here.
use Prim.Native.String.{String}
use voice_verse_ai.Common.{
  ℕ, suc, ◌+◌, ◌-◌, ◌*◌, Bool, true, false, not, ◌&&◌, ◌||◌, ltb, leb, ◌==◌, if◌then◌else◌, Option,
  none, some, List, [], ◌∷◌, map, length, text_eq, str_eq, Result, ok, ◌>>◌, throw_if,
}
use voice_verse_ai.Common.Sort.{Comparator}
use voice_verse_ai.Common.Text.{is_empty, trim}
use voice_verse_ai.Timeline.Compare.{compare_big_int}
use voice_verse_ai.Ingest.Types.{
  OrganizationRole, viewer, AccessContext, MultipartUploadStatus, initiated, completing, Video,
  Upload, CompletedPart, CreateInput, NormalizedUpload, IngestError, role_cannot_upload,
  invalid_filename, unsupported_media_type, upload_too_large, key_already_used, no_longer_writable,
  upload_expired, unexpected_part_size, parts_missing, parts_not_contiguous,
}
use voice_verse_ai.Ingest.Patterns.{codes, matches_uuid}

abbrev pub Checked : Type 0
Checked = Result IngestError (Unit {0})

unfoldable pub is_viewer : OrganizationRole → Bool
is_viewer viewer = true
is_viewer _ = false

unfoldable pub assert_can_edit : AccessContext → Checked
unfolding is_viewer
assert_can_edit context = throw_if (is_viewer context.role) role_cannot_upload

unfoldable pub assert_uuid : String → IngestError → Checked
unfolding matches_uuid
assert_uuid value error = throw_if (not (matches_uuid value)) error

-- A character that a file name may not have: a slash, a backslash or a control character.
unfoldable pub is_forbidden : ℕ → Bool
is_forbidden c = c == b'/' || c == 92 || ltb c 32 || c == 127

unfoldable pub some_forbidden : List ℕ → Bool
unfolding is_forbidden
some_forbidden [] = false
some_forbidden (c ∷ cs) = is_forbidden c || some_forbidden cs

-- `toLowerCase`, as far as it can yield `video/mp4`: no character beyond ASCII has a lower case there.
unfoldable pub lower : ℕ → ℕ
lower c = if leb b'A' c && leb c b'Z' then c + 32 else c

unfoldable pub codes_eq : List ℕ → List ℕ → Bool
codes_eq [] [] = true
codes_eq (c ∷ cs) (d ∷ ds) = c == d && codes_eq cs ds
codes_eq _ _ = false

unfoldable pub is_mp4 : String → Bool
unfolding codes_eq lower
is_mp4 media_type = codes_eq (map lower (codes media_type)) (codes "video/mp4")

unfoldable pub normalize_upload :
    (String → String) → ℕ → CreateInput → Result IngestError NormalizedUpload
unfolding trim is_empty some_forbidden is_mp4
normalize_upload nfc max_upload_bytes input =
    let filename = trim (nfc input.filename) in
    do
      throw_if (is_empty filename || some_forbidden (codes filename)) invalid_filename
      throw_if (not (is_mp4 input.media_type)) unsupported_media_type
      throw_if (ltb max_upload_bytes input.byte_size) upload_too_large
      ok (record {
        byte_size = input.byte_size;
        filename = filename;
        media_type = "video/mp4";
        sha256 = input.sha256;
      })

unfoldable pub assert_idempotent_create_matches : Video → String → NormalizedUpload → Checked
unfolding text_eq
assert_idempotent_create_matches video project_id input =
    throw_if
      (not (str_eq video.project_id project_id)
        || not (str_eq video.original_filename input.filename)
        || not (video.byte_size == input.byte_size)
        || not (text_eq video.sha256 input.sha256))
      key_already_used

unfoldable pub is_allowed : Bool → MultipartUploadStatus → Bool
is_allowed allow_completing initiated = true
is_allowed allow_completing completing = allow_completing
is_allowed allow_completing _ = false

unfoldable pub assert_upload_accepts_parts : ℕ → Bool → Upload → Checked
unfolding is_allowed
assert_upload_accepts_parts now allow_completing upload = do
  throw_if (not (is_allowed allow_completing upload.status)) no_longer_writable
  throw_if (leb upload.expires_at now) upload_expired

-- The last part has what remains; a negative remainder of the source is 0 here, and does not occur
-- where the part count is the rounded-up quotient.
unfoldable pub expected_part_size : ℕ → ℕ → ℕ → ℕ → ℕ
expected_part_size total_bytes part_size total_parts part_number =
    if part_number == total_parts then total_bytes - part_size * (total_parts - 1) else part_size

unfoldable pub differs : Option ℕ → ℕ → Bool
differs none expected = false
differs (some given) expected = not (given == expected)

-- The callback of `forEach`, from the index of the list's first part.
unfoldable pub assert_parts : ℕ → ℕ → ℕ → ℕ → List CompletedPart → Checked
unfolding expected_part_size differs
assert_parts total_parts total_bytes part_size index [] = ok tt
assert_parts total_parts total_bytes part_size index (part ∷ parts) = do
  throw_if (not (part.part_number == suc index)) parts_not_contiguous
  throw_if
      (differs part.byte_size
        (expected_part_size total_bytes part_size total_parts part.part_number))
      (unexpected_part_size part.part_number)
  assert_parts total_parts total_bytes part_size (suc index) parts

unfoldable pub assert_complete_manifest : List CompletedPart → ℕ → ℕ → ℕ → Checked
unfolding assert_parts
assert_complete_manifest parts total_parts total_bytes part_size = do
  throw_if (not (length parts == total_parts)) parts_missing
  assert_parts total_parts total_bytes part_size 0 parts

-- The difference of two part numbers has the sign of their comparison.
unfoldable pub compare_parts : Comparator CompletedPart
unfolding compare_big_int
compare_parts left right = compare_big_int left.part_number right.part_number
