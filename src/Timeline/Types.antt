-- ===== src/Timeline/Types.antt =====
-- The interfaces of `timeline-materializer.service.ts`. Times are microseconds: a `bigint` that the
-- database's CHECK constraints keep at 0 or above, so a natural number. A sequence number, an
-- ordinal and a confidence are non-negative integers, and `null` is `none`.
use voice_verse_ai.Common.{ℕ, String, Option, List, Bool}

pub record Word : Type 0 where
  pub id : String
  pub transcript_segment_id : String
  pub sequence_number : ℕ
  pub start_time_us : ℕ
  pub end_time_us : ℕ
  pub text : String
  pub confidence_basis_points : Option ℕ

pub record TranscriptSegment : Type 0 where
  pub id : String
  pub sequence_number : ℕ
  pub start_time_us : ℕ
  pub end_time_us : ℕ
  pub text : String
  pub confidence_basis_points : Option ℕ
  pub words : List Word

pub record SpeakerCluster : Type 0 where
  pub id : String
  pub ordinal : ℕ

pub record SpeakerTurn : Type 0 where
  pub id : String
  pub speaker_cluster_id : String
  pub sequence_number : ℕ
  pub start_time_us : ℕ
  pub end_time_us : ℕ
  pub is_exclusive : Bool
  pub is_overlapping : Bool

-- `nearestTurnToleranceUs` is optional.
pub record MaterializationInput : Type 0 where
  pub resolver : String
  pub speaker_clusters : List SpeakerCluster
  pub speaker_turns : List SpeakerTurn
  pub transcript_segments : List TranscriptSegment
  pub nearest_turn_tolerance_us : Option ℕ

pub record MaterializedCharacter : Type 0 where
  pub display_name : String
  pub first_appearance_time_us : ℕ
  pub segment_count : ℕ
  pub speaker_cluster_id : String
  pub speaking_duration_us : ℕ
  pub stable_key : String
  pub word_count : ℕ

pub data AssignmentMethod : Type 0 where
  maximum_overlap nearest_turn unresolved : AssignmentMethod

pub record DialogueSegment : Type 0 where
  pub assignment_confidence_basis_points : Option ℕ
  pub assignment_method : AssignmentMethod
  pub end_time_us : ℕ
  pub is_overlapping : Bool
  pub sequence_number : ℕ
  pub source_text : String
  pub source_word_end_sequence : Option ℕ
  pub source_word_start_sequence : Option ℕ
  pub speaker_cluster_id : Option String
  pub speaker_turn_id : Option String
  pub start_time_us : ℕ
  pub transcript_segment_id : String
  pub transcription_confidence_basis_points : Option ℕ

pub record Materialization : Type 0 where
  pub characters : List MaterializedCharacter
  pub dialogue_segments : List DialogueSegment
  pub unresolved_segment_count : ℕ

pub record TimedUnit : Type 0 where
  pub confidence_basis_points : Option ℕ
  pub end_time_us : ℕ
  pub sequence_number : ℕ
  pub start_time_us : ℕ
  pub text : String
  pub word_end_sequence : Option ℕ
  pub word_start_sequence : Option ℕ

pub record UnitAssignment : Type 0 where
  pub confidence_basis_points : Option ℕ
  pub method : AssignmentMethod
  pub speaker_cluster_id : Option String
  pub speaker_turn_id : Option String

-- `AssignedUnit extends TimedUnit`.
pub record AssignedUnit : Type 0 where
  pub timed : TimedUnit
  pub assignment : UnitAssignment

-- The errors that the materializer throws.
pub data TimelineError : Type 0 where
  resolver_unsupported speaker_cluster_duplicate interval_invalid : TimelineError
  speaker_turn_cluster_missing speaker_turn_classification_invalid : TimelineError
  speaker_cluster_turn_missing confidence_basis_points_invalid : TimelineError
  transcript_segments_overlap word_outside_transcript_segment : TimelineError
  transcript_words_overlap : TimelineError
