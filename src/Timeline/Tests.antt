-- ===== src/Timeline/Tests.antt =====
-- Runs of the timeline materializer, and the theorems at concrete inputs.
use voice_verse_ai.Common.{
  ◌≡◌, ◌↔◌, ◌-◌, ◌*◌, ◌/◌, refl, some, none, [], ◌∷◌, true, false, ok, Ordering, String, ℕ, List,
  map, All, concat, arith,
}
use voice_verse_ai.Timeline.Types.{
  Word, TranscriptSegment, SpeakerTurn, MaterializationInput, Materialization, AssignedUnit,
  maximum_overlap, nearest_turn, unresolved,
}
use voice_verse_ai.Timeline.Check.{assert_input}
use voice_verse_ai.Timeline.Check.Sound.{IsWellFormed, assert_input_iff}
use voice_verse_ai.Timeline.Overlap.{merge_marked_overlap_intervals, new_overlap_cursor}
use voice_verse_ai.Timeline.Overlap.Merged.{
  any_interval, any_marked, IsDisjoint, merged-IsDisjoint, any_interval-merged,
}
use voice_verse_ai.Timeline.Overlap.Sweep.{overlap_answers, overlap_answers-eq-any_marked}
use voice_verse_ai.Timeline.Assign.{new_assignment_cursor}
use voice_verse_ai.Timeline.Assign.Sweep.{assign_among}
use voice_verse_ai.Timeline.Assign.Refines.{assignments, assignments-eq-assign_among}
use voice_verse_ai.Timeline.Assign.Best.{overlap_of}
use voice_verse_ai.Timeline.Assign.Chosen.{
  IsMaximum, IsFar, assign_among-maximum_overlap, assign_among-unresolved,
}
use voice_verse_ai.Timeline.Group.{group_assigned_units}
use voice_verse_ai.Timeline.Group.Laws.{IsRun, IsMaximal, group_assigned_units_lem}
use voice_verse_ai.Timeline.Materialize.{materialize}
use voice_verse_ai.Timeline.Materialize.Loops.{IsFaithfulTimeline, materialize-IsFaithfulTimeline}
use voice_verse_ai.Timeline.Materialize.Counts.{credited_of}
use voice_verse_ai.Timeline.Materialize.Totals.{sum_over, initial_characters, materialize_counts}

abbrev no_locale : String → String → Ordering
no_locale a b = Ordering.eq

abbrev turn : String → String → ℕ → ℕ → ℕ → SpeakerTurn
turn id cluster n start end = record {
  id = id;
  speaker_cluster_id = cluster;
  sequence_number = n;
  start_time_us = start;
  end_time_us = end;
  is_exclusive = true;
  is_overlapping = false;
}

abbrev word : String → ℕ → ℕ → ℕ → Word
word text n start end = record {
  id = text;
  transcript_segment_id = "s1";
  sequence_number = n;
  start_time_us = start;
  end_time_us = end;
  text = text;
  confidence_basis_points = some 9000;
}

abbrev segment : TranscriptSegment
segment = record {
  id = "s1";
  sequence_number = 0;
  start_time_us = 0;
  end_time_us = 3000000;
  text = "hello there you";
  confidence_basis_points = some 9000;
  words =
      word "hello" 0 0 500000 ∷ word " there" 1 500000 1000000 ∷ word " you" 2 2000000 3000000 ∷ [];
}

abbrev input : MaterializationInput
input = record {
  resolver = "deterministic-timeline-v1";
  speaker_clusters = record { id = "b"; ordinal = 1 } ∷ record { id = "a"; ordinal = 0 } ∷ [];
  speaker_turns = turn "t2" "b" 1 2500000 3500000 ∷ turn "t1" "a" 0 0 1200000 ∷ [];
  transcript_segments = segment ∷ [];
  nearest_turn_tolerance_us = none;
}

abbrev returned : Materialization
returned = record {
  characters =
      record {
        display_name = "Character 01";
        first_appearance_time_us = 0;
        segment_count = 1;
        speaker_cluster_id = "a";
        speaking_duration_us = 1000000;
        stable_key = "character-0001";
        word_count = 2;
      }
      ∷ record {
        display_name = "Character 02";
        first_appearance_time_us = 2500000;
        segment_count = 1;
        speaker_cluster_id = "b";
        speaking_duration_us = 1000000;
        stable_key = "character-0002";
        word_count = 1;
      }
      ∷ [];
  dialogue_segments =
      record {
        assignment_confidence_basis_points = some 10000;
        assignment_method = maximum_overlap;
        end_time_us = 1000000;
        is_overlapping = false;
        sequence_number = 0;
        source_text = "hello there";
        source_word_end_sequence = some 1;
        source_word_start_sequence = some 0;
        speaker_cluster_id = some "a";
        speaker_turn_id = some "t1";
        start_time_us = 0;
        transcript_segment_id = "s1";
        transcription_confidence_basis_points = some 9000;
      }
      ∷ record {
        assignment_confidence_basis_points = some 5000;
        assignment_method = maximum_overlap;
        end_time_us = 3000000;
        is_overlapping = false;
        sequence_number = 1;
        source_text = "you";
        source_word_end_sequence = some 2;
        source_word_start_sequence = some 2;
        speaker_cluster_id = some "b";
        speaker_turn_id = some "t2";
        start_time_us = 2000000;
        transcript_segment_id = "s1";
        transcription_confidence_basis_points = some 9000;
      }
      ∷ [];
  unresolved_segment_count = 0;
}

two_speakers : materialize no_locale input ≡ ok returned
unfolding materialize
two_speakers = refl

input-IsWellFormed : IsWellFormed input
unfolding assert_input
input-IsWellFormed = (assert_input_iff input).0 refl

materialize-IsFaithfulTimeline_example :
    (m : Materialization) × (materialize no_locale input ≡ ok m)
    × IsFaithfulTimeline input m.dialogue_segments
materialize-IsFaithfulTimeline_example =
    materialize-IsFaithfulTimeline no_locale input input-IsWellFormed

assert_input_iff_example : (assert_input input ≡ ok tt) ↔ IsWellFormed input
assert_input_iff_example = assert_input_iff input

materialize_counts_example :
    (sum_over (λ c. c.segment_count) returned.characters
      ≡ credited_of (λ d. 1) (initial_characters no_locale input) returned.dialogue_segments)
    × (sum_over (λ c. c.speaking_duration_us) returned.characters
        ≡ credited_of
            (λ d. d.end_time_us - d.start_time_us)
            (initial_characters no_locale input)
            returned.dialogue_segments)
materialize_counts_example = materialize_counts no_locale input returned two_speakers

abbrev ordered_turns : List SpeakerTurn
ordered_turns = turn "t1" "a" 0 0 1200000 ∷ turn "t2" "b" 1 2500000 3500000 ∷ []

assignments-eq-assign_among_example :
    assignments 250000
      (new_assignment_cursor ordered_turns)
      ((0, 500000) ∷ (500000, 1300000) ∷ (2000000, 2400000) ∷ [])
    ≡ map
        (λ (u : ℕ × ℕ). assign_among 250000 ordered_turns u.0 u.1)
        ((0, 500000) ∷ (500000, 1300000) ∷ (2000000, 2400000) ∷ [])
assignments-eq-assign_among_example =
    assignments-eq-assign_among 250000 ordered_turns
      ((0, 500000) ∷ (500000, 1300000) ∷ (2000000, 2400000) ∷ []) (omega arith) (omega arith)
      (omega arith)

overlapped : (assign_among 250000 ordered_turns 500000 1300000).method ≡ maximum_overlap
unfolding assign_among
overlapped = refl

assign_among-maximum_overlap_example :
    (t : SpeakerTurn) × IsMaximum 500000 1300000 ordered_turns t
    × ((assign_among 250000 ordered_turns 500000 1300000).speaker_turn_id ≡ some t.id)
    × ((assign_among 250000 ordered_turns 500000 1300000).speaker_cluster_id
        ≡ some t.speaker_cluster_id)
    × ((assign_among 250000 ordered_turns 500000 1300000).confidence_basis_points
        ≡ some (overlap_of 500000 1300000 t * 10000 / (1300000 - 500000)))
assign_among-maximum_overlap_example =
    assign_among-maximum_overlap 250000 500000 1300000 ordered_turns overlapped

far_away : (assign_among 1000 ordered_turns 2000000 2400000).method ≡ unresolved
unfolding assign_among
far_away = refl

assign_among-unresolved_example : All (IsFar 1000 2000000 2400000) ordered_turns
assign_among-unresolved_example =
    assign_among-unresolved 1000 2000000 2400000 ordered_turns (omega arith) (omega arith)
      (omega arith) far_away

abbrev shared : ℕ → ℕ → SpeakerTurn
shared start end = record {
  id = "o";
  speaker_cluster_id = "a";
  sequence_number = 0;
  start_time_us = start;
  end_time_us = end;
  is_exclusive = false;
  is_overlapping = true;
}

abbrev shared_turns : List SpeakerTurn
shared_turns = shared 0 10 ∷ shared 5 20 ∷ shared 30 40 ∷ []

merged :
    merge_marked_overlap_intervals shared_turns
    ≡ record { end_time_us = 20; start_time_us = 0 }
      ∷ record { end_time_us = 40; start_time_us = 30 }
      ∷ []
unfolding merge_marked_overlap_intervals
merged = refl

overlap_answers-eq-any_marked_example :
    overlap_answers (new_overlap_cursor shared_turns) ((2, 4) ∷ (20, 30) ∷ (25, 31) ∷ [])
    ≡ map (λ (q : ℕ × ℕ). any_marked q.0 q.1 shared_turns) ((2, 4) ∷ (20, 30) ∷ (25, 31) ∷ [])
overlap_answers-eq-any_marked_example =
    overlap_answers-eq-any_marked shared_turns ((2, 4) ∷ (20, 30) ∷ (25, 31) ∷ []) (omega arith)
      (omega arith)

merged-IsDisjoint_example : IsDisjoint (merge_marked_overlap_intervals shared_turns)
merged-IsDisjoint_example = merged-IsDisjoint shared_turns (omega arith)

any_interval-merged_example :
    any_interval 8 12 (merge_marked_overlap_intervals shared_turns) ≡ any_marked 8 12 shared_turns
any_interval-merged_example = any_interval-merged shared_turns 8 12 (omega arith) (omega arith)

abbrev unit_of : String → ℕ → ℕ → AssignedUnit
unit_of cluster start end = record {
  timed = record {
    confidence_basis_points = none;
    end_time_us = end;
    sequence_number = 0;
    start_time_us = start;
    text = "x";
    word_end_sequence = none;
    word_start_sequence = none;
  };
  assignment = record {
    confidence_basis_points = none;
    method = nearest_turn;
    speaker_cluster_id = some cluster;
    speaker_turn_id = some cluster;
  };
}

abbrev three_units : List AssignedUnit
three_units = unit_of "a" 0 1 ∷ unit_of "a" 1 2 ∷ unit_of "b" 2 3 ∷ []

group_assigned_units_example :
    (concat (group_assigned_units three_units) ≡ three_units)
    × All IsRun (group_assigned_units three_units)
    × IsMaximal (group_assigned_units three_units)
group_assigned_units_example = group_assigned_units_lem three_units
