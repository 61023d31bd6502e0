-- ===== src/Timeline/Materialize.antt =====
-- `TimelineMaterializerService.materialize`.
pub mod Shape
pub mod Assigned
pub mod Faithful
pub mod Loops
pub mod Counts
pub mod Totals
use mathlib.Core.List.{head?, foldl}
use voice_verse_ai.Common.{
  ℕ, suc, ◌+◌, ◌-◌, String, Bool, true, false, Option, none, some, List, [], ◌∷◌, ◌++◌, map, length,
  last?, keep, min, if◌then◌else◌, Result, ok, err, ◌>>=◌, ◌>>◌, Ordering,
}
use voice_verse_ai.Common.Dict.{get, set}
use voice_verse_ai.Common.Sort.{sort_by}
use voice_verse_ai.Common.Text
use voice_verse_ai.Common.Text.{is_empty, trim, join, decimal, pad_start}
use voice_verse_ai.Timeline.Types.{
  TranscriptSegment, SpeakerCluster, SpeakerTurn, MaterializationInput, MaterializedCharacter,
  AssignmentMethod, unresolved, DialogueSegment, Materialization, TimedUnit, AssignedUnit,
  TimelineError,
}
use voice_verse_ai.Timeline.Compare.{compare_segments}
use voice_verse_ai.Timeline.Check.{assert_input}
use voice_verse_ai.Timeline.Overlap.{OverlapCursor, new_overlap_cursor, has_overlap}
use voice_verse_ai.Timeline.Assign.{AssignmentCursor, new_assignment_cursor, assign}
use voice_verse_ai.Timeline.Group.{units_for_segment, method_eq, group_assigned_units}
use voice_verse_ai.Timeline.Statistics.{
  ClusterStatistics, get_or_zero, cluster_statistics, canonical_cluster_order, exclusive_turns_of,
  regular_turns_of, character_evidence_turns,
}

abbrev pub default_nearest_turn_tolerance_us : ℕ
default_nearest_turn_tolerance_us = 250000

-- `values.filter(v => v !== null)`
unfoldable pub defined_values : List (Option ℕ) → List ℕ
defined_values [] = []
defined_values (none ∷ values) = defined_values values
defined_values (some v ∷ values) = v ∷ defined_values values

unfoldable pub minimum_nullable : List (Option ℕ) → Option ℕ
unfolding defined_values
minimum_nullable values = elim (defined_values values) [
  | [] ↦ none
  | v ∷ vs ↦ some (foldl min v vs)
]

-- The entries of `characterByCluster`, numbered from `index`.
unfoldable pub number_characters :
    ClusterStatistics → ℕ → List SpeakerCluster → List (String × MaterializedCharacter)
unfolding get_or_zero pad_start decimal
number_characters statistics index [] = []
number_characters statistics index (cluster ∷ clusters) =
    (
      cluster.id,
      record {
        display_name = Text.join ("Character " ∷ pad_start 2 "0" (decimal (suc index)) ∷ []);
        first_appearance_time_us = get_or_zero cluster.id statistics.first_appearance_by_cluster;
        segment_count = 0;
        speaker_cluster_id = cluster.id;
        speaking_duration_us = 0;
        stable_key = Text.join ("character-" ∷ pad_start 4 "0" (decimal (suc index)) ∷ []);
        word_count = 0;
      },
    )
    ∷ number_characters statistics (suc index) clusters

-- `new Map(entries)`
unfoldable pub map_of :
    List (String × MaterializedCharacter) → List (String × MaterializedCharacter)
unfolding set
map_of entries = foldl (λ m e. set e.0 e.1 m) [] entries

-- `characterByCluster`, as it starts.
unfoldable pub characters_of :
    ClusterStatistics → List SpeakerCluster → List (String × MaterializedCharacter)
unfolding map_of number_characters
characters_of statistics cluster_order = map_of (number_characters statistics 0 cluster_order)

-- The state of the loop over the segments.
pub record Progress : Type 0 where
  pub dialogue_segments : List DialogueSegment
  pub character_by_cluster : List (String × MaterializedCharacter)
  pub assignment_cursor : AssignmentCursor
  pub overlap_cursor : OverlapCursor

-- `units.map(unit => ({ ...unit, assignment: assignmentCursor.assign(...) }))`
unfoldable pub assign_units :
    ℕ → AssignmentCursor → List TimedUnit → AssignmentCursor × List AssignedUnit
unfolding assign
assign_units tolerance cursor [] = (cursor, [])
assign_units tolerance cursor (unit ∷ units) =
    let step = assign tolerance unit.start_time_us unit.end_time_us cursor in
    let rest = assign_units tolerance step.0 units in
    (rest.0, record { timed = unit; assignment = step.1 } ∷ rest.1)

-- How many of a group's units are words.
unfoldable pub word_units : List AssignedUnit → ℕ
word_units [] = 0
word_units (unit ∷ units) = elim unit.timed.word_start_sequence [
  | none ↦ word_units units
  | some _ ↦ suc (word_units units)
]

-- `speakerClusterId ? characterByCluster.get(speakerClusterId) : undefined`
unfoldable pub character_of :
    Option String → List (String × MaterializedCharacter) → Option MaterializedCharacter
unfolding is_empty get
character_of none characters = none
character_of (some id) characters = if is_empty id then none else get id characters

-- The character counts one more segment.
unfoldable pub count_segment :
    ℕ → ℕ → List AssignedUnit → MaterializedCharacter → MaterializedCharacter
unfolding word_units
count_segment start end group character = record character {
  segment_count = suc character.segment_count;
  speaking_duration_us = character.speaking_duration_us + (end - start);
  word_count = character.word_count + word_units group;
}

-- `if (character) { ... }`: the character is an object of the map, so the map changes.
unfoldable pub credit :
    Option String
    → ℕ
    → ℕ
    → List AssignedUnit
    → List (String × MaterializedCharacter)
    → List (String × MaterializedCharacter)
unfolding character_of count_segment set
credit cluster start end group characters = elim (character_of cluster characters) [
  | none ↦ characters
  | some character ↦ elim cluster [
    | none ↦ characters
    | some id ↦ set id (count_segment start end group character) characters
  ]
]

-- `sourceText || transcriptSegment.text.trim()`
unfoldable pub text_or : String → String → String
unfolding is_empty
text_or text fallback = if is_empty text then fallback else text

-- What the loop reads of `group[0]` and `group.at(-1)`, with their defaults.
unfoldable pub group_start : TranscriptSegment → List AssignedUnit → ℕ
group_start segment [] = segment.start_time_us
group_start segment (first ∷ others) = first.timed.start_time_us

unfoldable pub group_end : TranscriptSegment → List AssignedUnit → ℕ
group_end segment [] = segment.end_time_us
group_end segment (unit ∷ []) = unit.timed.end_time_us
group_end segment (first ∷ second ∷ others) = group_end segment (second ∷ others)

unfoldable pub group_cluster : List AssignedUnit → Option String
group_cluster [] = none
group_cluster (first ∷ others) = first.assignment.speaker_cluster_id

unfoldable pub group_turn : List AssignedUnit → Option String
group_turn [] = none
group_turn (first ∷ others) = first.assignment.speaker_turn_id

unfoldable pub group_method : List AssignedUnit → AssignmentMethod
group_method [] = unresolved
group_method (first ∷ others) = first.assignment.method

unfoldable pub group_word_start : List AssignedUnit → Option ℕ
group_word_start [] = none
group_word_start (first ∷ others) = first.timed.word_start_sequence

unfoldable pub group_word_end : List AssignedUnit → Option ℕ
group_word_end [] = none
group_word_end (unit ∷ []) = unit.timed.word_end_sequence
group_word_end (first ∷ second ∷ others) = group_word_end (second ∷ others)

-- The object that the loop over a segment's groups pushes.
unfoldable pub dialogue_segment_of :
    TranscriptSegment → List AssignedUnit → Bool → ℕ → DialogueSegment
unfolding group_start group_end group_cluster group_turn group_method group_word_start
    group_word_end minimum_nullable text_or trim join
dialogue_segment_of segment group is_overlapping sequence_number = record {
  assignment_confidence_basis_points =
      minimum_nullable (map (λ (u : AssignedUnit). u.assignment.confidence_basis_points) group);
  assignment_method = group_method group;
  end_time_us = group_end segment group;
  is_overlapping = is_overlapping;
  sequence_number = sequence_number;
  source_text =
      text_or (trim (Text.join (map (λ (u : AssignedUnit). u.timed.text) group)))
        (trim segment.text);
  source_word_end_sequence = group_word_end group;
  source_word_start_sequence = group_word_start group;
  speaker_cluster_id = group_cluster group;
  speaker_turn_id = group_turn group;
  start_time_us = group_start segment group;
  transcript_segment_id = segment.id;
  transcription_confidence_basis_points =
      minimum_nullable (map (λ (u : AssignedUnit). u.timed.confidence_basis_points) group);
}

-- The body of the loop over a segment's groups.
unfoldable pub emit_group : TranscriptSegment → Progress → List AssignedUnit → Progress
unfolding has_overlap credit dialogue_segment_of
emit_group segment progress group =
    let start = group_start segment group in
    let end = group_end segment group in
    let asked = has_overlap start end progress.overlap_cursor in
    record progress {
      dialogue_segments =
          progress.dialogue_segments
          ++ dialogue_segment_of segment group asked.1 (length progress.dialogue_segments) ∷ [];
      character_by_cluster =
          credit (group_cluster group) start end group progress.character_by_cluster;
      overlap_cursor = asked.0;
    }

-- The body of the loop over the segments.
unfoldable pub emit_segment : ℕ → Progress → TranscriptSegment → Progress
unfolding assign_units group_assigned_units emit_group units_for_segment
emit_segment tolerance progress segment =
    let assigned = assign_units tolerance progress.assignment_cursor (units_for_segment segment) in
    foldl (emit_group segment) (record progress { assignment_cursor = assigned.0 })
      (group_assigned_units assigned.1)

-- `clusterStatistics`, of the character evidence.
unfoldable pub statistics_of : MaterializationInput → ClusterStatistics
unfolding exclusive_turns_of regular_turns_of character_evidence_turns cluster_statistics
statistics_of input = cluster_statistics (
    character_evidence_turns (exclusive_turns_of input.speaker_turns)
      (regular_turns_of input.speaker_turns))

-- `clusterOrder`
unfoldable pub cluster_order_of :
    (String → String → Ordering) → MaterializationInput → List SpeakerCluster
unfolding canonical_cluster_order statistics_of
cluster_order_of locale_compare input =
    canonical_cluster_order locale_compare input.speaker_clusters (statistics_of input)

-- What stands before the loop over the segments.
unfoldable pub initial_progress : (String → String → Ordering) → MaterializationInput → Progress
unfolding characters_of new_overlap_cursor new_assignment_cursor exclusive_turns_of regular_turns_of
    statistics_of cluster_order_of
initial_progress locale_compare input = record {
  dialogue_segments = [];
  character_by_cluster =
      characters_of (statistics_of input) (cluster_order_of locale_compare input);
  assignment_cursor = new_assignment_cursor (exclusive_turns_of input.speaker_turns);
  overlap_cursor = new_overlap_cursor (regular_turns_of input.speaker_turns);
}

-- `dialogueSegments.filter(... 'UNRESOLVED').length`
unfoldable pub unresolved_count : List DialogueSegment → ℕ
unfolding method_eq
unresolved_count segments = length (keep (λ s. method_eq s.assignment_method unresolved) segments)

unfoldable pub tolerance_of : MaterializationInput → ℕ
tolerance_of input = elim input.nearest_turn_tolerance_us [
  | none ↦ default_nearest_turn_tolerance_us
  | some tolerance ↦ tolerance
]

unfoldable pub run_segments : (String → String → Ordering) → MaterializationInput → Progress
unfolding initial_progress emit_segment tolerance_of sort_by compare_segments
run_segments locale_compare input =
    foldl (emit_segment (tolerance_of input)) (initial_progress locale_compare input)
      (sort_by compare_segments input.transcript_segments)

-- The object that `materialize` returns.
unfoldable pub result_of : Progress → Materialization
unfolding unresolved_count
result_of progress = record {
  characters = map (λ e. e.1) progress.character_by_cluster;
  dialogue_segments = progress.dialogue_segments;
  unresolved_segment_count = unresolved_count progress.dialogue_segments;
}

unfoldable pub materialize :
    (String → String → Ordering) → MaterializationInput → Result TimelineError Materialization
unfolding assert_input run_segments result_of
materialize locale_compare input = do
  assert_input input
  ok (result_of (run_segments locale_compare input))
