-- ===== src/Scenes/Covered.antt =====
-- What `partitionLocalizationScenes` promises of its scenes.
use voice_verse_ai.Common.{◌≡◌, List, [], String, Ordering, foldl-keeps}
use voice_verse_ai.Common.Sort.{sort_by}
use voice_verse_ai.Scenes.{
  Dialogue, compare_dialogues, push_dialogue, partition_localization_scenes,
}
use voice_verse_ai.Scenes.Laws.{
  AreScenes, dialogues_of, dialogues_of-foldl, push_dialogue-AreScenes,
}

-- The scenes hold every dialogue of the input once, in the order of the comparator. They are numbered
-- from 1. Each has at least one dialogue and at most 200, starts with its first dialogue, has no pause
-- of two seconds or more between neighbours, and ends no earlier than any of its dialogues; its
-- dialogues after the first end within a minute of its start. No scene could have taken the first
-- dialogue of the next: that one follows a pause of two seconds or more, or ends more than a minute
-- after the scene's start, or the scene has 200 dialogues.
pub partition_scenes :
    (locale_compare : String → String → Ordering) (input : List Dialogue)
    → (dialogues_of (partition_localization_scenes locale_compare input)
        ≡ sort_by (compare_dialogues locale_compare) input)
      × AreScenes (partition_localization_scenes locale_compare input)
unfolding partition_localization_scenes
partition_scenes locale_compare input =
    let ordered = sort_by (compare_dialogues locale_compare) input in
    (
      dialogues_of-foldl ordered [],
      foldl-keeps AreScenes (push_dialogue 0) push_dialogue-AreScenes ordered []
          (record { scenes = tt; numbered = tt; maximal = tt }),
    )
