-- ===== src/Localization/Listing/Cursors.antt =====
-- A cursor that a page of scenes gives, read for a track.
use voice_verse_ai.Common.{
  ◌<◌, ◌≡◌, refl, String, true, inl, inr, some, List, [], ◌∷◌, str_eq, if◌then◌else◌, Bool-cases,
  ok, err,
}
use voice_verse_ai.Common.Dict.{get}
use voice_verse_ai.Ingest.Patterns.{matches_uuid}
use voice_verse_ai.Localization.Types.{LocalizationScene, invalid_scene_cursor}
use voice_verse_ai.Localization.History.{
  JsonValue, json_number, json_text, CursorCodec, matches_cursor, decode_cursor, is_number, is_text,
  uuid_text,
}
use voice_verse_ai.Localization.History.Cursors.{positive-number}
use voice_verse_ai.Localization.Listing.{
  SceneCursor, scene_cursor_of, decode_scene_cursor, encode_scene_cursor,
}

-- The object of a scene's cursor.
abbrev pub scene_fields : String → LocalizationScene → List (String × JsonValue)
scene_fields track_id last =
    ("id", json_text last.id)
    ∷ ("ordinal", json_number last.owner.ordinal)
    ∷ ("trackId", json_text track_id)
    ∷ ("version", json_number 1)
    ∷ []

-- The codec reads the scene's cursor back, and writes it in the alphabet of base64url.
abbrev pub HasSceneCursor : CursorCodec → String → LocalizationScene → Type 0
HasSceneCursor codec track_id scene =
    (matches_cursor (codec.encode (scene_fields track_id scene)) ≡ true)
    × (codec.decode (codec.encode (scene_fields track_id scene))
        ≡ some (scene_fields track_id scene))

abbrev pub cursor_of : LocalizationScene → SceneCursor
cursor_of scene = record { ordinal = scene.owner.ordinal; id = scene.id }

-- The cursor of a page of scenes belongs to its track: asked for the same track, it is read as the last
-- scene's ordinal and id, and asked for any other track it is refused; for a scene with a UUID and an
-- ordinal from 1, whose cursor's JSON the codec writes in its alphabet and reads back.
pub decode_scene_cursor-encode :
    (codec : CursorCodec) (track_id asked_id : String) (scene : LocalizationScene)
    → HasSceneCursor codec track_id scene
    → matches_uuid scene.id ≡ true
    → 0 < scene.owner.ordinal
    → decode_scene_cursor codec (encode_scene_cursor codec track_id scene) asked_id
      ≡ (if str_eq track_id asked_id then ok (cursor_of scene) else err invalid_scene_cursor)
unfolding decode_scene_cursor encode_scene_cursor decode_cursor get is_number is_text uuid_text
    scene_cursor_of
decode_scene_cursor-encode codec track_id asked_id scene has uuid numbered =
    elim (Bool-cases (str_eq track_id asked_id)) [
      | inl same ↦ rw (has.0, has.1, same, uuid, positive-number scene.owner.ordinal numbered) refl
      | inr other ↦ rw (has.0, has.1, other) refl
    ]
