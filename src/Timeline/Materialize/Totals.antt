-- ===== src/Timeline/Materialize/Totals.antt =====
-- What the characters of a materialization count, from the start of the loops to their end.
use mathlib.Core.List.{foldl}
use voice_verse_ai.Common.{
  ℕ, suc, ◌+◌, ◌-◌, ◌≡◌, refl, ◌∙◌, inl, inr, String, Bool, List, [], ◌∷◌, map, arith, str_eq,
  Bool-cases, Ordering,
}
use voice_verse_ai.Common.Dict.{set}
use voice_verse_ai.Timeline.Types.{
  TranscriptSegment, AssignedUnit, DialogueSegment, MaterializedCharacter, MaterializationInput,
}
use voice_verse_ai.Timeline.Materialize.{
  count_segment, dialogue_segment_of, group_start, group_end, run_segments, initial_progress,
  tolerance_of, number_characters, characters_of, statistics_of, cluster_order_of, materialize,
  result_of,
}
use voice_verse_ai.Timeline.Materialize.Counts.{
  Characters, total_of, credited_of, IsCounted, emit_segments-IsCounted,
}
use voice_verse_ai.Common.{ok, ok-injective, >>=-eq-ok, All}
use voice_verse_ai.Timeline.Statistics.{ClusterStatistics}
use voice_verse_ai.Common.Sort.{sort_by}
use voice_verse_ai.Timeline.Compare.{compare_segments}
use voice_verse_ai.Timeline.Check.{assert_input}
use voice_verse_ai.Timeline.Types.{SpeakerCluster, Materialization}

-- The characters start with nothing counted.
total_of-set_zero :
    (f : MaterializedCharacter → ℕ) (k : String) (c : MaterializedCharacter) (m : Characters)
    → f c ≡ 0
    → total_of f m ≡ 0
    → total_of f (set k c m) ≡ 0
unfolding total_of set
total_of-set_zero f k c [] h e = omega arith
total_of-set_zero f k c ((j, b) ∷ m) h e = elim (Bool-cases (str_eq j k)) [
  | inl g ↦ ground arith
  | inr g ↦ ground (arith, total_of-set_zero f k c m)
]

map_of_zero :
    (f : MaterializedCharacter → ℕ) (entries m : Characters)
    → All (λ e. f e.1 ≡ 0) entries
    → total_of f m ≡ 0
    → total_of f (foldl (λ m e. set e.0 e.1 m) m entries) ≡ 0
map_of_zero f [] m z h = h
map_of_zero f ((k, c) ∷ es) m (z, zs) h =
    map_of_zero f es (set k c m) zs (total_of-set_zero f k c m z h)

-- A measure that is 0 for a character with nothing counted.
abbrev StartsAtZero : (MaterializedCharacter → ℕ) → Type 0
StartsAtZero f =
    (c : MaterializedCharacter) → c.segment_count ≡ 0 → c.speaking_duration_us ≡ 0 → f c ≡ 0

number_characters_zero :
    (f : MaterializedCharacter → ℕ) (statistics : ClusterStatistics) (index : ℕ)
    (clusters : List SpeakerCluster)
    → StartsAtZero f
    → All (λ e. f e.1 ≡ 0) (number_characters statistics index clusters)
unfolding number_characters
number_characters_zero f statistics index [] z = tt
number_characters_zero f statistics index (c ∷ cs) z =
    (z _ refl refl, number_characters_zero f statistics (suc index) cs z)

characters_of_zero :
    (f : MaterializedCharacter → ℕ) (statistics : ClusterStatistics)
    (clusters : List SpeakerCluster)
    → StartsAtZero f
    → total_of f (characters_of statistics clusters) ≡ 0
unfolding characters_of total_of
characters_of_zero f statistics clusters z =
    map_of_zero f (number_characters statistics 0 clusters) []
      (number_characters_zero f statistics 0 clusters z) refl

module _ (locale_compare : String → String → Ordering) (input : MaterializationInput) where
  abbrev pub initial_characters : Characters
  initial_characters = (initial_progress locale_compare input).character_by_cluster

  initial_zero :
      (f : MaterializedCharacter → ℕ) → StartsAtZero f → total_of f initial_characters ≡ 0
  unfolding initial_progress
  initial_zero f z =
      characters_of_zero f (statistics_of input) (cluster_order_of locale_compare input) z

  run_segments-IsCounted :
      (f : MaterializedCharacter → ℕ) (weight : DialogueSegment → ℕ)
      → StartsAtZero f
      → ((segment : TranscriptSegment) (g : List AssignedUnit) (b : Bool) (n : ℕ)
            (c : MaterializedCharacter)
          → f (count_segment (group_start segment g) (group_end segment g) g c)
            ≡ f c + weight (dialogue_segment_of segment g b n))
      → total_of f (run_segments locale_compare input).character_by_cluster
        ≡ credited_of weight initial_characters
            (run_segments locale_compare input).dialogue_segments
  unfolding run_segments
  run_segments-IsCounted f weight z raises =
      let start : IsCounted f weight initial_characters raises
          (initial_progress locale_compare input) =
        record {
          counted = unfold initial_progress credited_of in omega arith;
          named = λ cluster. refl;
        } in
      let h =
        emit_segments-IsCounted f weight initial_characters raises (tolerance_of input)
          (sort_by compare_segments input.transcript_segments) _ start in
      omega (arith, h.counted, initial_zero f z)

-- A measure of the returned characters, added up.
unfoldable pub sum_over : (MaterializedCharacter → ℕ) → List MaterializedCharacter → ℕ
sum_over f [] = 0
sum_over f (c ∷ cs) = f c + sum_over f cs

sum_over-map :
    (f : MaterializedCharacter → ℕ) (m : Characters) → sum_over f (map (λ e. e.1) m) ≡ total_of f m
unfolding sum_over total_of
sum_over-map f [] = refl
sum_over-map f ((k, c) ∷ m) = omega (arith, sum_over-map f m)

-- Of whatever `materialize` returns: the characters' segment counts add up to the number of dialogue
-- segments whose speaker cluster names a character, and their speaking times to the time that those
-- segments take.
pub materialize_counts :
    (locale_compare : String → String → Ordering) (input : MaterializationInput)
    (m : Materialization)
    → materialize locale_compare input ≡ ok m
    → (sum_over (λ c. c.segment_count) m.characters
        ≡ credited_of (λ d. 1) (initial_characters locale_compare input) m.dialogue_segments)
      × (sum_over (λ c. c.speaking_duration_us) m.characters
          ≡ credited_of
              (λ d. d.end_time_us - d.start_time_us)
              (initial_characters locale_compare input)
              m.dialogue_segments)
unfolding materialize result_of
materialize_counts locale_compare input m e =
    let (checked, passed, done) = >>=-eq-ok (assert_input input) _ e in
    rw (← ok-injective done) (
      sum_over-map _ _
          ∙ run_segments-IsCounted locale_compare input (λ c. c.segment_count) (λ d. 1) (λ c h k. h)
              (λ s g b n c. unfold count_segment in omega arith),
      sum_over-map _ _
          ∙ run_segments-IsCounted locale_compare input (λ c. c.speaking_duration_us)
              (λ d. d.end_time_us - d.start_time_us) (λ c h k. k)
              (λ s g b n c. unfold count_segment dialogue_segment_of in refl),
    )
