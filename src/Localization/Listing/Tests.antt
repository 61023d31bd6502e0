-- ===== src/Localization/Listing/Tests.antt =====
-- The cursor of a scene, and its page.
use voice_verse_ai.Common.{◌≡◌, refl, true, none, some, [], ok, err, str_eq, if◌then◌else◌, arith}
use voice_verse_ai.Ingest.Patterns.{matches_uuid}
use voice_verse_ai.Localization.Types.{LocalizationScene, invalid_scene_cursor}
use voice_verse_ai.Localization.History.{CursorCodec, matches_cursor}
use voice_verse_ai.Localization.Listing.{decode_scene_cursor, encode_scene_cursor}
use voice_verse_ai.Localization.Listing.Cursors.{
  scene_fields, HasSceneCursor, cursor_of, decode_scene_cursor-encode,
}

abbrev scene : LocalizationScene
scene = record {
  id = "019f1a2b-3c4d-7e5f-8a6b-7c8d9e0f1a05";
  scope = record { organization_id = "org"; project_id = "project"; workspace_id = "workspace" };
  owner = record { ordinal = 3; created_by_user_id = "user" };
  revisions = [];
  selection = none;
}

abbrev codec : CursorCodec
codec = record { encode = λ _. "scene"; decode = λ _. some (scene_fields "track" scene) }

has_cursor : HasSceneCursor codec "track" scene
unfolding matches_cursor
has_cursor = (refl, refl)

is_uuid : matches_uuid scene.id ≡ true
unfolding matches_uuid
is_uuid = refl

decode_scene_cursor-encode_example :
    decode_scene_cursor codec (encode_scene_cursor codec "track" scene) "track"
    ≡ (if str_eq "track" "track" then ok (cursor_of scene) else err invalid_scene_cursor)
decode_scene_cursor-encode_example =
    decode_scene_cursor-encode codec "track" "track" scene has_cursor is_uuid (omega arith)
