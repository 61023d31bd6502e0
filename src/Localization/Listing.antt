-- ===== src/Localization/Listing.antt =====
-- `listTracks` and `listScenes` of the localization service: the tracks of a project, and the scenes of
-- a track, page by page, with their dialogues and the translations of that track.
use Prim.Native.String.{compare as compare_text}
use voice_verse_ai.Common.{
  ℕ, ◌+◌, String, Bool, true, false, not, ◌&&◌, ◌||◌, ltb, ◌==◌, if◌then◌else◌, Option, none, some,
  List, [], ◌∷◌, length, last?, keep, str_eq, Ordering, compare, Result, ok, err, ◌>>=◌, ◌>>◌,
  throw_if,
}
use voice_verse_ai.Common.Sort.{Comparator, or_else, sort_by}
use voice_verse_ai.Common.Dict.{get}
use voice_verse_ai.Common.Take.{take}
use voice_verse_ai.Ingest.Types.{AccessContext}
use voice_verse_ai.Ingest.Tables.{find}
use voice_verse_ai.Ingest.Create.{is_some}
use voice_verse_ai.Localization.Types.{
  Scope, same_scope, Revision, Selection, SceneContent, LocalizationScene, LocalizedDialogue,
  DialogueTranslation, TranslationEditorState, LocalizationTrack, Store, LocalizationError,
  project_not_found, scene_without_revision, invalid_scene_cursor,
}
use voice_verse_ai.Localization.Versions.{selected_revision, require_selection}
use voice_verse_ai.Localization.Access.{assert_uuid, owned_track, scope_of}
use voice_verse_ai.Localization.Scene.{microseconds_to_milliseconds}
use voice_verse_ai.Localization.Translation.{is_of_track}
use voice_verse_ai.Localization.Track.{Catalog}
use voice_verse_ai.Localization.Track.Bootstrap.{TrackEnv}
use voice_verse_ai.Localization.Track.Create.{TrackResponse, to_track_response}
use voice_verse_ai.Localization.History.{
  JsonValue, json_number, json_text, CursorCodec, decode_cursor, is_number, is_text, positive,
  uuid_text, is_before,
}
use voice_verse_ai.Localization.Generation.{Speaker, scene_dialogues}
use voice_verse_ai.Localization.Generation.Snapshots.{selection_of}
pub mod Cursors
mod Tests

-- `map` with a conversion that may throw.
unfoldable pub map_all {ℓ κ} :
    {A : Type ℓ} {B : Type κ}
    → (A → Result LocalizationError B)
    → List A
    → Result LocalizationError (List B)
map_all f [] = ok []
map_all f (x ∷ xs) = let rest = map_all f xs in do y ← f x; ys ← rest; ok (y ∷ ys)

-- The answer's order of tracks; its times are texts of one form.
unfoldable pub by_language : (String → String → Ordering) → Comparator TrackResponse
unfolding or_else
by_language locale_compare a b =
    or_else (locale_compare a.target_language.english_name b.target_language.english_name)
      (or_else (compare a.created_at b.created_at) (locale_compare a.id b.id))

-- `orderBy: [{ createdAt: 'asc' }, { id: 'asc' }]`
unfoldable pub oldest_track_first : Comparator LocalizationTrack
unfolding or_else
oldest_track_first a b = or_else (compare a.created_at b.created_at) (compare_text a.id b.id)

-- The projects are pairs of an id and its organization's.
unfoldable pub list_tracks :
    TrackEnv
    → Catalog
    → (String → String → Ordering)
    → List (String × String)
    → AccessContext
    → String
    → Store
    → Result LocalizationError (List TrackResponse)
list_tracks env catalog locale_compare projects context project_id store = do
  assert_uuid project_id "project"
  throw_if
      (not (
        is_some (
          find
            (λ (p : String × String). str_eq p.0 project_id && str_eq p.1 context.organization_id)
            projects)))
      project_not_found
  tracks ← map_all (to_track_response env catalog store) (
      sort_by oldest_track_first (
        keep
          (λ (t : LocalizationTrack).
            str_eq t.scope.organization_id context.organization_id
            && str_eq t.scope.project_id project_id)
          store.tracks))
  ok (sort_by (by_language locale_compare) tracks)

pub record SceneCursor : Type 0 where
  pub ordinal : ℕ
  pub id : String

unfoldable pub scene_cursor_of : Option ℕ → Option String → Result LocalizationError SceneCursor
scene_cursor_of (some n) (some id) = ok (record { ordinal = n; id = id })
scene_cursor_of _ _ = err invalid_scene_cursor

unfoldable pub decode_scene_cursor :
    CursorCodec → String → String → Result LocalizationError SceneCursor
decode_scene_cursor codec value track_id = do
  fields ← decode_cursor codec value
  throw_if (not (is_number 1 (get "version" fields) && is_text track_id (get "trackId" fields)))
      invalid_scene_cursor
  scene_cursor_of (positive (get "ordinal" fields)) (uuid_text (get "id" fields))

-- `encodeCursor` of a scene.
unfoldable pub encode_scene_cursor : CursorCodec → String → LocalizationScene → String
encode_scene_cursor codec track_id last = codec.encode (
    ("id", json_text last.id)
    ∷ ("ordinal", json_number last.owner.ordinal)
    ∷ ("trackId", json_text track_id)
    ∷ ("version", json_number 1)
    ∷ [])

-- The scenes behind the cursor.
unfoldable pub is_beyond : Option SceneCursor → LocalizationScene → Bool
is_beyond none scene = true
is_beyond (some cursor) scene =
    ltb cursor.ordinal scene.owner.ordinal
    || (is_before cursor.id scene.id && scene.owner.ordinal == cursor.ordinal)

-- `orderBy: [{ ordinal: 'asc' }, { id: 'asc' }]`
unfoldable pub in_order : Comparator LocalizationScene
unfolding or_else
in_order a b = or_else (compare a.owner.ordinal b.owner.ordinal) (compare_text a.id b.id)

pub record SourceSummary : Type 0 where
  pub revision_id : String
  pub revision_number : ℕ
  pub selection_revision : ℕ
  pub text : String

pub record TranslationSummary : Type 0 where
  pub editor_state : TranslationEditorState
  pub revision_id : String
  pub revision_number : ℕ
  pub selection_revision : ℕ
  pub source_revision_id : String
  pub text : String
  pub translation_id : String

pub record DialogueResponse : Type 0 where
  pub character : Option (String × String)
  pub end_ms : ℕ
  pub id : String
  pub ordinal : ℕ
  pub source : Option SourceSummary
  pub start_ms : ℕ
  pub translation : Option TranslationSummary

pub record SceneResponse : Type 0 where
  pub dialogues : List DialogueResponse
  pub id : String
  pub ordinal : ℕ
  pub end_ms : ℕ
  pub start_ms : ℕ
  pub revision : Revision SceneContent
  pub selection_revision : ℕ

-- The character's id, and its name or key.
unfoldable pub character_of : Option Speaker → Option (String × String)
character_of none = none
character_of (some speaker) = elim speaker.display_name [
  | none ↦ some (speaker.character_id, speaker.stable_key)
  | some name ↦ some (speaker.character_id, name)
]

unfoldable pub source_summary : LocalizedDialogue → Result LocalizationError (Option SourceSummary)
source_summary dialogue = elim dialogue.selection [
  | none ↦ ok none
  | some selection ↦ selected_revision dialogue.revisions selection >>= λ revision. ok (
      some (record {
        revision_id = revision.id;
        revision_number = revision.revision_number;
        selection_revision = selection.revision;
        text = revision.content;
      }))
]

unfoldable pub translation_summary :
    Option DialogueTranslation → Result LocalizationError (Option TranslationSummary)
translation_summary none = ok none
translation_summary (some translation) = elim translation.selection [
  | none ↦ ok none
  | some selection ↦ selected_revision translation.revisions selection >>= λ revision. ok (
      some (record {
        editor_state = selection.state;
        revision_id = revision.id;
        revision_number = revision.revision_number;
        selection_revision = selection.revision;
        source_revision_id = revision.content.source_dialogue_revision_id;
        text = revision.content.translated_text;
        translation_id = translation.id;
      }))
]

unfoldable pub to_dialogue_response :
    List Speaker → String → Store → LocalizedDialogue → Result LocalizationError DialogueResponse
to_dialogue_response speakers track_id store dialogue = do
  source ← source_summary dialogue
  translation ← translation_summary (find (is_of_track track_id dialogue.id) store.translations)
  ok (record {
    character = character_of (
        find (λ (s : Speaker). str_eq s.dialogue_segment_id dialogue.owner.dialogue_segment_id)
          speakers);
    end_ms = microseconds_to_milliseconds dialogue.owner.end_time_us;
    id = dialogue.id;
    ordinal = dialogue.owner.sequence_number;
    source = source;
    start_ms = microseconds_to_milliseconds dialogue.owner.start_time_us;
    translation = translation;
  })

-- `toSceneResponse`, with the 200 dialogues at most that `listScenes` reads of a scene.
unfoldable pub to_scene_response :
    List Speaker → String → Store → LocalizationScene → Result LocalizationError SceneResponse
to_scene_response speakers track_id store scene = do
  found ← require_selection scene_without_revision (some scene)
  revision ← selected_revision scene.revisions found.1
  dialogues ←
      map_all (to_dialogue_response speakers track_id store) (scene_dialogues 200 scene.id store)
  ok (record {
    dialogues = dialogues;
    id = scene.id;
    ordinal = scene.owner.ordinal;
    end_ms = microseconds_to_milliseconds revision.content.end_time_us;
    start_ms = microseconds_to_milliseconds revision.content.start_time_us;
    revision = revision;
    selection_revision = found.1.revision;
  })

-- `ListLocalizationScenesQueryDto`
pub record SceneQuery : Type 0 where
  pub cursor : Option String
  pub limit : ℕ

pub record ScenePage : Type 0 where
  pub scenes : List SceneResponse
  pub next_cursor : Option String
  pub total : ℕ
  pub track : TrackResponse

unfoldable pub scene_query_cursor :
    CursorCodec → String → Option String → Result LocalizationError (Option SceneCursor)
scene_query_cursor codec track_id none = ok none
scene_query_cursor codec track_id (some value) =
    if str_eq value ""
    then ok none
    else (decode_scene_cursor codec value track_id >>= λ cursor. ok (some cursor))

unfoldable pub next_scene_cursor :
    CursorCodec → String → Bool → Option LocalizationScene → Option String
next_scene_cursor codec track_id true (some last) = some (encode_scene_cursor codec track_id last)
next_scene_cursor codec track_id has_more last = none

-- `findMany` of the scenes behind the cursor, one more than the page holds.
unfoldable pub scene_rows : Scope → Option SceneCursor → ℕ → Store → List LocalizationScene
scene_rows scope cursor limit store = take (limit + 1) (
    sort_by in_order (
      keep (λ (s : LocalizationScene). same_scope s.scope scope && is_beyond cursor s)
        store.scenes))

unfoldable pub list_scenes :
    TrackEnv
    → Catalog
    → CursorCodec
    → List Speaker
    → AccessContext
    → String
    → String
    → SceneQuery
    → Store
    → Result LocalizationError ScenePage
list_scenes env catalog codec speakers context project_id track_id query store = do
  track ← owned_track context project_id track_id store
  cursor ← scene_query_cursor codec track.id query.cursor
  let scope = scope_of context project_id track
  let rows = scene_rows scope cursor query.limit store
  scenes ← map_all (to_scene_response speakers track.id store) (take query.limit rows)
  response ← to_track_response env catalog store track
  ok (record {
    scenes = scenes;
    next_cursor =
        next_scene_cursor codec track_id (ltb query.limit (length rows))
          (last? (take query.limit rows));
    total = length (keep (λ (s : LocalizationScene). same_scope s.scope scope) store.scenes);
    track = response;
  })
