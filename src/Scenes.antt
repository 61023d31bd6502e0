-- ===== src/Scenes.antt =====
-- `apps/api/src/modules/localization/application/localization-partitioner.ts`: the dialogue timeline
-- cut into bounded scenes. Times are microseconds from the start of the video, never negative; a
-- difference of the source is compared with a constant, so it is written as a sum. `localeCompare`
-- is the argument `locale_compare`.
use mathlib.Core.List.{foldl}
use voice_verse_ai.Common.{
  ℕ, suc, ◌+◌, String, Bool, true, false, ◌||◌, ltb, leb, if◌then◌else◌, Option, none, some, List,
  [], ◌∷◌, ◌++◌, length, last?, Ordering,
}
use voice_verse_ai.Common.Sort.{Comparator, or_else, sort_by}
use voice_verse_ai.Timeline.Compare.{compare_big_int}
pub mod Order
pub mod Laws
pub mod Covered
mod Tests

abbrev pub localization_scene_max_duration_us : ℕ
localization_scene_max_duration_us = 60000000

abbrev pub localization_scene_max_dialogues : ℕ
localization_scene_max_dialogues = 200

abbrev pub localization_scene_silence_boundary_us : ℕ
localization_scene_silence_boundary_us = 2000000

pub record Dialogue : Type 0 where
  pub id : String
  pub sequence_number : ℕ
  pub start_time_us : ℕ
  pub end_time_us : ℕ
  pub text : String

pub record Scene : Type 0 where
  pub ordinal : ℕ
  pub start_time_us : ℕ
  pub end_time_us : ℕ
  pub dialogues : List Dialogue

-- The difference of the sequence numbers has the sign of their comparison.
unfoldable pub compare_dialogues : (String → String → Ordering) → Comparator Dialogue
unfolding compare_big_int or_else
compare_dialogues locale_compare left right =
    or_else (compare_big_int left.sequence_number right.sequence_number) (
      or_else (compare_big_int left.start_time_us right.start_time_us)
        (locale_compare left.id right.id))

-- `beginsAtSilenceBoundary`
unfoldable pub begins_at_silence_boundary : Option Dialogue → Dialogue → Bool
begins_at_silence_boundary none dialogue = false
begins_at_silence_boundary (some previous) dialogue =
    leb (previous.end_time_us + localization_scene_silence_boundary_us) dialogue.start_time_us

-- The condition of the loop, where there is a current scene.
unfoldable pub starts_scene : Scene → Dialogue → Bool
unfolding begins_at_silence_boundary
starts_scene current dialogue =
    begins_at_silence_boundary (last? current.dialogues) dialogue
    || ltb (current.start_time_us + localization_scene_max_duration_us) dialogue.end_time_us
    || leb localization_scene_max_dialogues (length current.dialogues)

unfoldable pub new_scene : ℕ → Dialogue → Scene
new_scene ordinal dialogue = record {
  dialogues = dialogue ∷ [];
  end_time_us = dialogue.end_time_us;
  ordinal = ordinal;
  start_time_us = dialogue.start_time_us;
}

unfoldable pub extend_scene : Scene → Dialogue → Scene
extend_scene current dialogue = record current {
  dialogues = current.dialogues ++ dialogue ∷ [];
  end_time_us =
      if ltb current.end_time_us dialogue.end_time_us
      then dialogue.end_time_us
      else current.end_time_us;
}

-- The body of the loop: only the last scene is read or changed. `before` scenes stand before the list.
unfoldable pub push_dialogue : ℕ → List Scene → Dialogue → List Scene
unfolding starts_scene new_scene extend_scene
push_dialogue before [] dialogue = new_scene (suc before) dialogue ∷ []
push_dialogue before (current ∷ []) dialogue =
    if starts_scene current dialogue
    then current ∷ new_scene (suc (suc before)) dialogue ∷ []
    else extend_scene current dialogue ∷ []
push_dialogue before (first ∷ second ∷ others) dialogue =
    first ∷ push_dialogue (suc before) (second ∷ others) dialogue

unfoldable pub partition_localization_scenes :
    (String → String → Ordering) → List Dialogue → List Scene
unfolding compare_dialogues sort_by push_dialogue
partition_localization_scenes locale_compare input =
    foldl (push_dialogue 0) [] (sort_by (compare_dialogues locale_compare) input)
