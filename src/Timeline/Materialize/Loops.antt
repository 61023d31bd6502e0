-- ===== src/Timeline/Materialize/Loops.antt =====
-- The loops of `materialize` over a well-formed input keep the invariant, and what it says of the
-- result.
use mathlib.Core.List.{foldl}
use voice_verse_ai.Common.{
  ℕ, ◌≤◌, ◌≡◌, refl, Option, none, some, List, [], ◌∷◌, All, All-map, arith, concat, String,
  Ordering, ok,
}
use voice_verse_ai.Common.Sort.{sort_by}
use voice_verse_ai.Timeline.Types.{
  TranscriptSegment, SpeakerTurn, AssignedUnit, DialogueSegment, MaterializationInput,
  Materialization,
}
use voice_verse_ai.Timeline.Compare.{compare_segments}
use voice_verse_ai.Timeline.Check.Sound.{
  IsSegment, ValidSegments, IsWellFormed, assert_input_iff, cluster_ids_of,
}
use voice_verse_ai.Common.Dict.{set_of}
use voice_verse_ai.Timeline.Overlap.Sweep.{new_overlap_cursor-Tracks}
use voice_verse_ai.Timeline.Assign.{AssignmentCursor}
use voice_verse_ai.Timeline.Assign.Retire.{StartOrdered}
use voice_verse_ai.Timeline.Assign.Sweep.{NonEmpty}
use voice_verse_ai.Timeline.Group.{units_for_segment, group_assigned_units}
use voice_verse_ai.Timeline.Group.Laws.{
  IsRun, concat-group_assigned_units, group_assigned_units-IsRun,
}
use voice_verse_ai.Timeline.Statistics.{exclusive_turns_of, regular_turns_of}
use voice_verse_ai.Timeline.Materialize.{
  Progress, assign_units, group_end, emit_group, emit_segment, initial_progress, tolerance_of,
  run_segments, result_of, materialize, result_of,
}
use voice_verse_ai.Timeline.Materialize.Shape.{
  UnitsWithin, units_for_segment-UnitsWithin, exclusive_turns_of-NonEmpty,
  exclusive_turns_of-StartOrdered, regular_turns_of-IsOrdered,
}
use voice_verse_ai.Timeline.Materialize.Assigned.{
  CursorAt, CursorAt-mono, new_assignment_cursor-CursorAt, AssignedWithin,
  assign_units-AssignedWithin, assign_units-CursorAt,
}
use voice_verse_ai.Timeline.Materialize.Faithful.{
  IsFaithful, InOrder, NumberedFrom, IsTimeline, bounds, emit_group-IsTimeline,
}

module _ (tolerance : ℕ) (exclusive regular : List SpeakerTurn) (ordered : StartOrdered exclusive)
    (non_empty : NonEmpty exclusive) where
  IsTimeline-mono :
      (low high : ℕ) (progress : Progress)
      → low ≤ high
      → IsTimeline tolerance exclusive regular ordered non_empty low progress
      → IsTimeline tolerance exclusive regular ordered non_empty high progress
  IsTimeline-mono low high progress h t = record {
    faithful = t.faithful;
    in_order = t.in_order;
    numbered = t.numbered;
    ended = All-map (λ d e. omega arith) _ t.ended;
    from = t.from;
    tracks = t.tracks;
    within = omega arith;
  }

  IsTimeline-cursor :
      (bound : ℕ) (progress : Progress) (cursor : AssignmentCursor)
      → IsTimeline tolerance exclusive regular ordered non_empty bound progress
      → IsTimeline tolerance exclusive regular ordered non_empty bound
          (record progress { assignment_cursor = cursor })
  IsTimeline-cursor bound progress cursor t = record {
    faithful = t.faithful;
    in_order = t.in_order;
    numbered = t.numbered;
    ended = t.ended;
    from = t.from;
    tracks = t.tracks;
    within = t.within;
  }

  emit_groups-IsTimeline :
      (segment : TranscriptSegment) (bound limit : ℕ) (progress : Progress)
      (groups : List (List AssignedUnit))
      → All IsRun groups
      → IsTimeline tolerance exclusive regular ordered non_empty bound progress
      → bound ≤ limit
      → AssignedWithin tolerance exclusive ordered non_empty bound limit (concat groups)
      → IsTimeline tolerance exclusive regular ordered non_empty limit
          (foldl (emit_group segment) progress groups)
  emit_groups-IsTimeline segment bound limit progress [] r t b a =
      IsTimeline-mono bound limit progress b t
  emit_groups-IsTimeline segment bound limit progress ([] ∷ groups) (r, _) t b a = absurd r
  emit_groups-IsTimeline segment bound limit progress ((u ∷ us) ∷ groups) (_, rs) t b a =
      let (h, k, l, m) =
        bounds tolerance exclusive regular ordered non_empty segment bound limit progress u us
          (concat groups) t a in
      emit_groups-IsTimeline segment (group_end segment (u ∷ us)) limit
        (emit_group segment progress (u ∷ us)) groups rs
        (emit_group-IsTimeline tolerance exclusive regular ordered non_empty segment bound limit
          progress u us (concat groups) t a)
        l m

  emit_group-assignment_cursor :
      (segment : TranscriptSegment) (groups : List (List AssignedUnit)) (progress : Progress)
      → (foldl (emit_group segment) progress groups).assignment_cursor ≡ progress.assignment_cursor
  unfolding emit_group
  emit_group-assignment_cursor segment [] progress = refl
  emit_group-assignment_cursor segment (g ∷ gs) progress =
      emit_group-assignment_cursor segment gs (emit_group segment progress g)

  module _ (bound : ℕ) (previous : Option ℕ) (segment : TranscriptSegment) (progress : Progress)
      (valid : IsSegment previous segment)
      (t : IsTimeline tolerance exclusive regular ordered non_empty bound progress)
      (c : CursorAt bound exclusive progress.assignment_cursor)
      (after : bound ≤ segment.start_time_us) where
    abbrev assigned : AssignmentCursor × List AssignedUnit
    assigned = assign_units tolerance progress.assignment_cursor (units_for_segment segment)

    starts_at : CursorAt segment.start_time_us exclusive progress.assignment_cursor
    starts_at = CursorAt-mono bound segment.start_time_us exclusive _ after c

    units : UnitsWithin segment.start_time_us segment.end_time_us (units_for_segment segment)
    units = units_for_segment-UnitsWithin previous segment valid

    emit_segment-CursorAt :
        CursorAt segment.end_time_us exclusive
          (emit_segment tolerance progress segment).assignment_cursor
    unfolding emit_segment
    emit_segment-CursorAt = rw emit_group-assignment_cursor (
        assign_units-CursorAt tolerance exclusive ordered non_empty segment.start_time_us
          segment.end_time_us progress.assignment_cursor _ starts_at
          (let h = valid.interval in omega arith) units)

    emit_segment-IsTimeline :
        IsTimeline tolerance exclusive regular ordered non_empty segment.end_time_us
          (emit_segment tolerance progress segment)
    unfolding emit_segment
    emit_segment-IsTimeline =
        emit_groups-IsTimeline segment segment.start_time_us segment.end_time_us
          (record progress { assignment_cursor = assigned.0 }) (group_assigned_units assigned.1)
          (group_assigned_units-IsRun assigned.1)
          (IsTimeline-cursor segment.start_time_us progress assigned.0
            (IsTimeline-mono bound segment.start_time_us progress after t))
          (let h = valid.interval in omega arith)
          (rw concat-group_assigned_units (
            assign_units-AssignedWithin tolerance exclusive ordered non_empty segment.start_time_us
              segment.end_time_us progress.assignment_cursor _ starts_at units))

  emit_segments-IsTimeline :
      (bound : ℕ) (previous : Option ℕ) (segments : List TranscriptSegment) (progress : Progress)
      → ((s : TranscriptSegment) → IsSegment previous s → bound ≤ s.start_time_us)
      → ValidSegments previous segments
      → IsTimeline tolerance exclusive regular ordered non_empty bound progress
      → CursorAt bound exclusive progress.assignment_cursor
      → (last : ℕ) × IsTimeline tolerance exclusive regular ordered non_empty last
          (foldl (emit_segment tolerance) progress segments)
  emit_segments-IsTimeline bound previous [] progress after v t c = (bound, t)
  emit_segments-IsTimeline bound previous (s ∷ ss) progress after (v, vs) t c =
      emit_segments-IsTimeline s.end_time_us (some s.end_time_us) ss
        (emit_segment tolerance progress s) (λ x k. k.order) vs
        (emit_segment-IsTimeline bound previous s progress v t c (after s v))
        (emit_segment-CursorAt bound previous s progress v t c (after s v))

-- What the loops leave for a well-formed input.
abbrev pub IsFaithfulTimeline : MaterializationInput → List DialogueSegment → Type 0
IsFaithfulTimeline input segments =
    All
      (IsFaithful (tolerance_of input) (exclusive_turns_of input.speaker_turns)
        (regular_turns_of input.speaker_turns))
      segments
    × InOrder segments
    × NumberedFrom 0 segments

run_segments-IsFaithfulTimeline :
    (locale_compare : String → String → Ordering) (input : MaterializationInput)
    → IsWellFormed input
    → IsFaithfulTimeline input (run_segments locale_compare input).dialogue_segments
unfolding run_segments
run_segments-IsFaithfulTimeline locale_compare input w =
    let ids = set_of [] (cluster_ids_of input) in
    let turns = input.speaker_turns in
    let exclusive = exclusive_turns_of turns in
    let regular = regular_turns_of turns in
    let ordered = exclusive_turns_of-StartOrdered ids turns w.turns in
    let non_empty = exclusive_turns_of-NonEmpty ids turns w.turns in
    let (last, t) =
      emit_segments-IsTimeline (tolerance_of input) exclusive regular ordered non_empty 0 none
        (sort_by compare_segments input.transcript_segments) (initial_progress locale_compare input)
        (λ s k. omega arith) w.segments
        (record {
          faithful = tt;
          in_order = tt;
          numbered = tt;
          ended = tt;
          from = 0;
          tracks = new_overlap_cursor-Tracks regular (regular_turns_of-IsOrdered ids turns w.turns);
          within = omega arith;
        })
        (new_assignment_cursor-CursorAt exclusive) in
    (t.faithful, t.in_order, t.numbered)

-- A well-formed input is materialized: `materialize` returns a value. Its dialogue segments are
-- non-empty, disjoint and in the order of time, numbered from 0; each one's mark says whether it
-- meets a regular turn that is marked as overlapping; and its speaker, turn and method are those that
-- a search through all exclusive turns gives to a unit that starts with it.
pub materialize-IsFaithfulTimeline :
    (locale_compare : String → String → Ordering) (input : MaterializationInput)
    → IsWellFormed input
    → (m : Materialization) × (materialize locale_compare input ≡ ok m)
      × IsFaithfulTimeline input m.dialogue_segments
unfolding materialize
materialize-IsFaithfulTimeline locale_compare input w = (
  result_of (run_segments locale_compare input),
  rw ((assert_input_iff input).1 w),
  run_segments-IsFaithfulTimeline locale_compare input w,
)
