-- ===== src/Timeline/Check.antt =====
-- `assertInput`, `assertInterval` and `assertBasisPoints` of the timeline materializer. A negative
-- time or confidence, and a confidence that is no integer, is not a value of the model.
pub mod Sound
use voice_verse_ai.Common.{
  ℕ, String, Bool, true, false, not, ◌&&◌, ◌||◌, Option, none, some, List, [], ◌∷◌, map, length,
  ltb, leb, ◌==◌, str_eq, if◌then◌else◌, Result, ok, err, ◌>>=◌, ◌>>◌, throw_if,
}
use voice_verse_ai.Common.Dict.{has, set_of}
use voice_verse_ai.Common.Sort.{sort_by}
use voice_verse_ai.Timeline.Types.{
  Word, TranscriptSegment, SpeakerCluster, SpeakerTurn, MaterializationInput, TimelineError,
  resolver_unsupported, speaker_cluster_duplicate, interval_invalid, speaker_turn_cluster_missing,
  speaker_turn_classification_invalid, speaker_cluster_turn_missing,
  confidence_basis_points_invalid, transcript_segments_overlap, word_outside_transcript_segment,
  transcript_words_overlap,
}
use voice_verse_ai.Timeline.Compare.{compare_segments, compare_words}

abbrev pub Checked : Type 0
Checked = Result TimelineError (Unit {0})

abbrev pub deterministic_timeline_resolver : String
deterministic_timeline_resolver = "deterministic-timeline-v1"

unfoldable pub assert_interval : ℕ → ℕ → Checked
assert_interval start end = throw_if (leb end start) interval_invalid

unfoldable pub assert_basis_points : Option ℕ → Checked
assert_basis_points none = ok tt
assert_basis_points (some value) = throw_if (ltb 10000 value) confidence_basis_points_invalid

-- The loop over the speaker turns.
unfoldable pub assert_turns : List String → List SpeakerTurn → Checked
unfolding assert_interval has
assert_turns cluster_ids [] = ok tt
assert_turns cluster_ids (turn ∷ turns) = do
  assert_interval turn.start_time_us turn.end_time_us
  throw_if (not (has turn.speaker_cluster_id cluster_ids)) speaker_turn_cluster_missing
  throw_if (turn.is_exclusive && turn.is_overlapping) speaker_turn_classification_invalid
  assert_turns cluster_ids turns

-- Does a value start before the end of the one before it, if there is one?
unfoldable pub starts_before_previous : ℕ → Option ℕ → Bool
starts_before_previous start none = false
starts_before_previous start (some previous_end) = ltb start previous_end

-- The loop over a segment's words, with the end of `previousWord`.
unfoldable pub assert_words : TranscriptSegment → Option ℕ → List Word → Checked
unfolding assert_interval assert_basis_points starts_before_previous
assert_words segment previous [] = ok tt
assert_words segment previous (word ∷ words) = do
  assert_interval word.start_time_us word.end_time_us
  assert_basis_points word.confidence_basis_points
  throw_if
      (not (str_eq word.transcript_segment_id segment.id)
        || ltb word.start_time_us segment.start_time_us
        || ltb segment.end_time_us word.end_time_us)
      word_outside_transcript_segment
  throw_if (starts_before_previous word.start_time_us previous) transcript_words_overlap
  assert_words segment (some word.end_time_us) words

-- The loop over the segments, with the end of `previousSegment`.
unfoldable pub assert_segments : Option ℕ → List TranscriptSegment → Checked
unfolding assert_interval assert_basis_points starts_before_previous assert_words sort_by
    compare_words
assert_segments previous [] = ok tt
assert_segments previous (segment ∷ segments) = do
  assert_interval segment.start_time_us segment.end_time_us
  assert_basis_points segment.confidence_basis_points
  throw_if (starts_before_previous segment.start_time_us previous) transcript_segments_overlap
  assert_words segment none (sort_by compare_words segment.words)
  assert_segments (some segment.end_time_us) segments

-- `clusters.some(({ id }) => !clustersWithTurns.has(id))`
unfoldable pub some_without_turns : List String → List SpeakerCluster → Bool
unfolding has
some_without_turns with_turns [] = false
some_without_turns with_turns (cluster ∷ clusters) =
    not (has cluster.id with_turns) || some_without_turns with_turns clusters

unfoldable pub assert_input : MaterializationInput → Checked
unfolding assert_turns some_without_turns assert_segments set_of sort_by compare_segments
assert_input input = do
  let cluster_ids = set_of [] (map (λ (c : SpeakerCluster). c.id) input.speaker_clusters)
  let with_turns = set_of [] (map (λ (t : SpeakerTurn). t.speaker_cluster_id) input.speaker_turns)
  throw_if (not (str_eq input.resolver deterministic_timeline_resolver)) resolver_unsupported
  throw_if (not (length cluster_ids == length input.speaker_clusters)) speaker_cluster_duplicate
  assert_turns cluster_ids input.speaker_turns
  throw_if (some_without_turns with_turns input.speaker_clusters) speaker_cluster_turn_missing
  assert_segments none (sort_by compare_segments input.transcript_segments)
