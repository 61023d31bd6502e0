-- ===== src/Scenes/Tests.antt =====
-- A run of the partition, and the theorems at a concrete input.
use Prim.Native.String
use mathlib.Core.List.{Permᴰ}
use voice_verse_ai.Common.{◌≡◌, refl, [], ◌∷◌, map, ℕ, String, Ordering, All, compare, arith}
use voice_verse_ai.Common.Sort.{IsOrder, swap_order, sort_by}
use voice_verse_ai.Scenes.{Dialogue, Scene, compare_dialogues, partition_localization_scenes}
use voice_verse_ai.Scenes.Order.{AreInOrder, partition_unique}
use voice_verse_ai.Scenes.Laws.{AreScenes, dialogues_of}
use voice_verse_ai.Scenes.Covered.{partition_scenes}

abbrev no_locale : String → String → Ordering
no_locale a b = Ordering.eq

abbrev said : String → ℕ → ℕ → ℕ → Dialogue
said id n start end = record {
  id = id;
  sequence_number = n;
  start_time_us = start;
  end_time_us = end;
  text = "line";
}

abbrev first_line : Dialogue
first_line = said "a" 0 0 1000000

abbrev second_line : Dialogue
second_line = said "b" 1 1500000 2500000

abbrev third_line : Dialogue
third_line = said "c" 2 4500000 5000000

scenes :
    map
      (λ (s : Scene). s.dialogues)
      (partition_localization_scenes no_locale (third_line ∷ first_line ∷ second_line ∷ []))
    ≡ (first_line ∷ second_line ∷ []) ∷ (third_line ∷ []) ∷ []
unfolding partition_localization_scenes
scenes = refl

partition_scenes_example :
    (dialogues_of (partition_localization_scenes no_locale (third_line ∷ first_line ∷ []))
      ≡ sort_by (compare_dialogues no_locale) (third_line ∷ first_line ∷ []))
    × AreScenes (partition_localization_scenes no_locale (third_line ∷ first_line ∷ []))
partition_scenes_example = partition_scenes no_locale (third_line ∷ first_line ∷ [])

-- A collation by the length of the ids.
abbrev by_size : String → String → Ordering
by_size a b = compare (String.len a) (String.len b)

by_size-IsOrder : IsOrder by_size
unfolding swap_order
by_size-IsOrder = record { flip = λ a b. ground arith; trans = λ a b c h k e. ground arith }

-- Both speak at once, under one number.
abbrev echo : Dialogue
echo = said "bb" 0 0 1500000

ids_apart :
    All
      (λ (a : Dialogue).
        All (λ (b : Dialogue). by_size a.id b.id ≡ Ordering.eq → a ≡ b) (echo ∷ first_line ∷ []))
      (echo ∷ first_line ∷ [])
ids_apart = (((λ e. refl), ((λ e. cc e), tt)), (((λ e. cc e), ((λ e. refl), tt)), tt))

partition_unique_example :
    (partition_localization_scenes by_size (echo ∷ first_line ∷ [])
      ≡ partition_localization_scenes by_size (first_line ∷ echo ∷ []))
    × AreInOrder by_size by_size-IsOrder
        (dialogues_of (partition_localization_scenes by_size (echo ∷ first_line ∷ [])))
partition_unique_example =
    partition_unique by_size by_size-IsOrder (echo ∷ first_line ∷ []) (first_line ∷ echo ∷ [])
      (Permᴰ.swap refl refl) ids_apart
