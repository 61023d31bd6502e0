-- ===== src/Timeline/Compare.antt =====
-- `compareBigInt`, `compareInterval` and `overlapUs` of the timeline materializer.
use voice_verse_ai.Common.{ℕ, ◌-◌, ◌≡◌, ltb, if◌then◌else◌, compare, Ordering, arith}
use voice_verse_ai.Common.Sort.{Comparator, IsOrder, or_else, swap_order}
use voice_verse_ai.Timeline.Types.{Word, TranscriptSegment, SpeakerTurn}

unfoldable pub compare_big_int : ℕ → ℕ → Ordering
compare_big_int left right =
    if ltb left right then Ordering.lt else if ltb right left then Ordering.gt else Ordering.eq

-- What `compareInterval` reads of its arguments.
pub record Interval : Type 0 where
  pub start_time_us : ℕ
  pub end_time_us : ℕ
  pub sequence_number : ℕ

-- The difference of two sequence numbers has the sign of their comparison.
unfoldable pub compare_interval : Comparator Interval
unfolding compare_big_int or_else
compare_interval left right = or_else (compare_big_int left.start_time_us right.start_time_us) (
    or_else (compare_big_int left.end_time_us right.end_time_us)
      (compare left.sequence_number right.sequence_number))

abbrev pub turn_interval : SpeakerTurn → Interval
turn_interval t = record {
  start_time_us = t.start_time_us;
  end_time_us = t.end_time_us;
  sequence_number = t.sequence_number;
}

abbrev pub segment_interval : TranscriptSegment → Interval
segment_interval s = record {
  start_time_us = s.start_time_us;
  end_time_us = s.end_time_us;
  sequence_number = s.sequence_number;
}

abbrev pub word_interval : Word → Interval
word_interval w = record {
  start_time_us = w.start_time_us;
  end_time_us = w.end_time_us;
  sequence_number = w.sequence_number;
}

unfoldable pub compare_turns : Comparator SpeakerTurn
unfolding compare_interval
compare_turns left right = compare_interval (turn_interval left) (turn_interval right)

unfoldable pub compare_segments : Comparator TranscriptSegment
unfolding compare_interval
compare_segments left right = compare_interval (segment_interval left) (segment_interval right)

unfoldable pub compare_words : Comparator Word
unfolding compare_interval
compare_words left right = compare_interval (word_interval left) (word_interval right)

unfoldable pub overlap_us : ℕ → ℕ → ℕ → ℕ → ℕ
overlap_us left_start left_end right_start right_end =
    let start = if ltb right_start left_start then left_start else right_start in
    let end = if ltb left_end right_end then left_end else right_end in
    if ltb start end then end - start else 0

compare_interval-flip : (a b : Interval) → compare_interval a b ≡ swap_order (compare_interval b a)
unfolding compare_interval swap_order
compare_interval-flip a b = ground arith

compare_interval_trans :
    (a b c : Interval)
    → (compare_interval a b ≡ Ordering.gt → ⊥)
    → (compare_interval b c ≡ Ordering.gt → ⊥)
    → compare_interval a c ≡ Ordering.gt
    → ⊥
unfolding compare_interval
compare_interval_trans a b c h k e = ground arith

pub compare_interval-IsOrder : IsOrder compare_interval
compare_interval-IsOrder = record {
  flip = compare_interval-flip;
  trans = λ a b c h k e. compare_interval_trans a b c h k e;
}
