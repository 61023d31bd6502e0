-- ===== src/Localization/Track/Bootstrap.antt =====
-- `bootstrapWorkspace` of the localization service: the scenes and dialogues of a new workspace, each
-- with its first revision selected.
use Prim.Native.String
use voice_verse_ai.Common.{
  ℕ, String, Bool, ltb, none, some, List, [], ◌∷◌, ◌++◌, map, Ordering, Result, ok, err, ◌>>◌,
  throw_if,
}
use voice_verse_ai.Common.Text.{is_empty, trim, join, decimal}
use voice_verse_ai.Scenes
use voice_verse_ai.Scenes.{Dialogue, partition_localization_scenes}
use voice_verse_ai.Ingest.Types.{AccessContext}
use voice_verse_ai.Localization.Types.{
  Scope, Revision, Selection, LocalizationScene, LocalizedDialogue, LocalizationError,
  blank_segment, segment_too_long, no_segments,
}
use voice_verse_ai.Localization.Values.{deterministic_localization_uuid}

-- What a request for a track draws from its surroundings.
pub record TrackEnv : Type 0 where
  pub sha256 : String → List ℕ
  pub locale_compare : String → String → Ordering
  pub now : ℕ
  pub translation_enabled : Bool

abbrev pub segment_byte_limit : ℕ
segment_byte_limit = 65536

unfoldable pub assert_segments : List Dialogue → Result LocalizationError (Unit {0})
unfolding is_empty trim
assert_segments [] = ok tt
assert_segments (dialogue ∷ dialogues) =
    let rest = assert_segments dialogues in
    throw_if (is_empty (trim dialogue.text)) blank_segment
    >> throw_if (ltb segment_byte_limit (String.len dialogue.text)) segment_too_long
    >> rest

-- A first revision, numbered 1.
unfoldable pub first_revision {ℓ} :
    {P : Type ℓ} → TrackEnv → AccessContext → String → P → Revision P
first_revision env context id content = record {
  id = id;
  revision_number = 1;
  created_by_user_id = context.user_id;
  created_at = env.now;
  content = content;
}

-- Its selection, at 1 as well.
unfoldable pub first_selection : AccessContext → String → Selection (Unit {0})
first_selection context revision_id = record {
  revision = 1;
  selected_revision_id = revision_id;
  updated_by_user_id = context.user_id;
  state = tt;
}

unfoldable pub scene_id_of : TrackEnv → Scope → ℕ → String
scene_id_of env scope ordinal =
    deterministic_localization_uuid env.sha256
      (join ("scene:" ∷ scope.workspace_id ∷ ":" ∷ decimal ordinal ∷ []))

unfoldable pub first_revision_id : TrackEnv → String → String → String
first_revision_id env kind id =
    deterministic_localization_uuid env.sha256 (join (kind ∷ ":" ∷ id ∷ ":1" ∷ []))

unfoldable pub scene_row : TrackEnv → AccessContext → Scope → Scenes.Scene → LocalizationScene
scene_row env context scope scene =
    let id = scene_id_of env scope scene.ordinal in
    let revision_id = first_revision_id env "scene-revision" id in
    record {
      id = id;
      scope = scope;
      owner = record { ordinal = scene.ordinal; created_by_user_id = context.user_id };
      revisions =
          first_revision env context revision_id (record {
            start_time_us = scene.start_time_us;
            end_time_us = scene.end_time_us;
            title = none;
            summary = none;
            cultural_context = none;
          })
          ∷ [];
      selection = some (first_selection context revision_id);
    }

unfoldable pub dialogue_row :
    TrackEnv → AccessContext → Scope → String → String → Dialogue → LocalizedDialogue
dialogue_row env context scope speech_analysis_id scene_id dialogue =
    let id =
      deterministic_localization_uuid env.sha256
        (join ("dialogue:" ∷ scope.workspace_id ∷ ":" ∷ dialogue.id ∷ [])) in
    let revision_id = first_revision_id env "source-revision" id in
    record {
      id = id;
      scope = scope;
      owner = record {
        scene_id = scene_id;
        dialogue_segment_id = dialogue.id;
        speech_analysis_id = speech_analysis_id;
        sequence_number = dialogue.sequence_number;
        start_time_us = dialogue.start_time_us;
        end_time_us = dialogue.end_time_us;
        created_by_user_id = context.user_id;
      };
      revisions = first_revision env context revision_id dialogue.text ∷ [];
      selection = some (first_selection context revision_id);
    }

-- `flatMap` over the scenes.
unfoldable pub dialogue_rows :
    TrackEnv → AccessContext → Scope → String → List Scenes.Scene → List LocalizedDialogue
dialogue_rows env context scope speech_analysis_id [] = []
dialogue_rows env context scope speech_analysis_id (scene ∷ scenes) =
    map (dialogue_row env context scope speech_analysis_id (scene_id_of env scope scene.ordinal))
      scene.dialogues
    ++ dialogue_rows env context scope speech_analysis_id scenes

-- The rows of the scenes that the dialogues are cut into; there is one.
unfoldable pub workspace_rows :
    TrackEnv
    → AccessContext
    → Scope
    → String
    → List Scenes.Scene
    → Result LocalizationError (List LocalizationScene × List LocalizedDialogue)
workspace_rows env context scope speech_analysis_id [] = err no_segments
workspace_rows env context scope speech_analysis_id (scene ∷ scenes) = ok (
  map (scene_row env context scope) (scene ∷ scenes),
  dialogue_rows env context scope speech_analysis_id (scene ∷ scenes),
)

unfoldable pub bootstrap_workspace :
    TrackEnv
    → AccessContext
    → Scope
    → String
    → List Dialogue
    → Result LocalizationError (List LocalizationScene × List LocalizedDialogue)
bootstrap_workspace env context scope speech_analysis_id segments =
    assert_segments segments
    >> workspace_rows env context scope speech_analysis_id
        (partition_localization_scenes env.locale_compare segments)
