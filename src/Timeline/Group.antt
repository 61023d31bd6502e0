-- ===== src/Timeline/Group.antt =====
-- `unitsForSegment` and `groupAssignedUnits` of the timeline materializer.
pub mod Laws
use mathlib.Core.List.{foldl}
use voice_verse_ai.Common.{
  String, Bool, true, false, ◌&&◌, Option, none, some, List, [], ◌∷◌, ◌++◌, map, text_eq,
  if◌then◌else◌,
}
use voice_verse_ai.Common.Sort.{sort_by}
use voice_verse_ai.Timeline.Types.{
  Word, TranscriptSegment, AssignmentMethod, maximum_overlap, nearest_turn, unresolved, TimedUnit,
  UnitAssignment, AssignedUnit,
}
use voice_verse_ai.Timeline.Compare.{compare_words}

abbrev pub word_unit : Word → TimedUnit
word_unit word = record {
  confidence_basis_points = word.confidence_basis_points;
  end_time_us = word.end_time_us;
  sequence_number = word.sequence_number;
  start_time_us = word.start_time_us;
  text = word.text;
  word_end_sequence = some word.sequence_number;
  word_start_sequence = some word.sequence_number;
}

abbrev pub segment_unit : TranscriptSegment → TimedUnit
segment_unit segment = record {
  confidence_basis_points = segment.confidence_basis_points;
  end_time_us = segment.end_time_us;
  sequence_number = segment.sequence_number;
  start_time_us = segment.start_time_us;
  text = segment.text;
  word_end_sequence = none;
  word_start_sequence = none;
}

unfoldable pub units_of_words : TranscriptSegment → List Word → List TimedUnit
unfolding sort_by compare_words
units_of_words segment [] = segment_unit segment ∷ []
units_of_words segment (word ∷ words) = map word_unit (sort_by compare_words (word ∷ words))

unfoldable pub units_for_segment : TranscriptSegment → List TimedUnit
unfolding units_of_words
units_for_segment segment = units_of_words segment segment.words

unfoldable pub method_eq : AssignmentMethod → AssignmentMethod → Bool
method_eq maximum_overlap maximum_overlap = true
method_eq nearest_turn nearest_turn = true
method_eq unresolved unresolved = true
method_eq _ _ = false

-- The three equations between `current[0]` and `unit`.
unfoldable pub joins : List AssignedUnit → AssignedUnit → Bool
unfolding method_eq text_eq
joins [] unit = false
joins (first ∷ others) unit =
    text_eq first.assignment.speaker_cluster_id unit.assignment.speaker_cluster_id
    && text_eq first.assignment.speaker_turn_id unit.assignment.speaker_turn_id
    && method_eq first.assignment.method unit.assignment.method

-- The body of the loop: only the last group is read or changed.
unfoldable pub push_unit : List (List AssignedUnit) → AssignedUnit → List (List AssignedUnit)
unfolding joins
push_unit [] unit = (unit ∷ []) ∷ []
push_unit (current ∷ []) unit =
    if joins current unit then (current ++ unit ∷ []) ∷ [] else current ∷ (unit ∷ []) ∷ []
push_unit (first ∷ second ∷ others) unit = first ∷ push_unit (second ∷ others) unit

unfoldable pub group_assigned_units : List AssignedUnit → List (List AssignedUnit)
unfolding push_unit
group_assigned_units units = foldl push_unit [] units
