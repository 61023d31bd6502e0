-- ===== src/Timeline/Overlap.antt =====
-- `mergeMarkedOverlapIntervals` and `IntervalOverlapCursor` of the timeline materializer.
pub mod Merged
pub mod Sweep
use mathlib.Core.List.{foldl}
use voice_verse_ai.Common.{
  ℕ, String, Bool, true, false, ◌&&◌, List, [], ◌∷◌, leb, ltb, if◌then◌else◌,
}
use voice_verse_ai.Timeline.Types.{SpeakerTurn}

pub record TimelineInterval : Type 0 where
  pub end_time_us : ℕ
  pub start_time_us : ℕ

-- The body of the loop after the `continue`: only the last interval is read or changed.
unfoldable pub extend_intervals : List TimelineInterval → SpeakerTurn → List TimelineInterval
extend_intervals [] turn =
    record { end_time_us = turn.end_time_us; start_time_us = turn.start_time_us } ∷ []
extend_intervals (current ∷ []) turn =
    if leb turn.start_time_us current.end_time_us
    then (if ltb current.end_time_us turn.end_time_us
        then record current { end_time_us = turn.end_time_us }
        else current)
      ∷ []
    else current
      ∷ record { end_time_us = turn.end_time_us; start_time_us = turn.start_time_us }
      ∷ []
extend_intervals (first ∷ second ∷ others) turn = first ∷ extend_intervals (second ∷ others) turn

unfoldable pub merge_step : List TimelineInterval → SpeakerTurn → List TimelineInterval
unfolding extend_intervals
merge_step intervals turn =
    if turn.is_overlapping then extend_intervals intervals turn else intervals

unfoldable pub merge_marked_overlap_intervals : List SpeakerTurn → List TimelineInterval
unfolding merge_step
merge_marked_overlap_intervals turns = foldl merge_step [] turns

-- The cursor only moves forward: its state is the intervals that it has not passed.
pub record OverlapCursor : Type 0 where
  pub intervals : List TimelineInterval

unfoldable pub new_overlap_cursor : List SpeakerTurn → OverlapCursor
unfolding merge_marked_overlap_intervals
new_overlap_cursor turns = record { intervals = merge_marked_overlap_intervals turns }

-- The `while` of `hasOverlap`.
unfoldable pub skip_ended : ℕ → List TimelineInterval → List TimelineInterval
skip_ended start [] = []
skip_ended start (i ∷ is) = if leb i.end_time_us start then skip_ended start is else i ∷ is

unfoldable pub first_overlaps : ℕ → ℕ → List TimelineInterval → Bool
first_overlaps start end [] = false
first_overlaps start end (i ∷ is) = ltb i.start_time_us end && ltb start i.end_time_us

unfoldable pub has_overlap : ℕ → ℕ → OverlapCursor → OverlapCursor × Bool
unfolding skip_ended first_overlaps
has_overlap start end cursor =
    let rest = skip_ended start cursor.intervals in
    (record { intervals = rest }, first_overlaps start end rest)
