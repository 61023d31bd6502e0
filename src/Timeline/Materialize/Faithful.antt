-- ===== src/Timeline/Materialize/Faithful.antt =====
-- What the dialogue segments of a well-formed input are: disjoint, in order, with the assignments
-- and the overlap marks that searches through all turns give.
use voice_verse_ai.Common.{
  ℕ, suc, ◌+◌, ◌≤◌, ◌<◌, ◌≡◌, List, [], ◌∷◌, ◌++◌, All, All-map, All-append, arith, ap, length,
}
use voice_verse_ai.Timeline.Types.{TranscriptSegment, SpeakerTurn, AssignedUnit, DialogueSegment}
use voice_verse_ai.Timeline.Overlap.{has_overlap}
use voice_verse_ai.Timeline.Overlap.Merged.{any_marked}
use voice_verse_ai.Timeline.Overlap.Sweep.{Tracks, has_overlap-Tracks, has_overlap-eq-any_marked}
use voice_verse_ai.Timeline.Assign.Retire.{StartOrdered}
use voice_verse_ai.Timeline.Assign.Sweep.{NonEmpty, assign_among}
use voice_verse_ai.Timeline.Materialize.{
  Progress, group_start, group_end, dialogue_segment_of, emit_group,
}
use voice_verse_ai.Timeline.Materialize.Assigned.{AssignedWithin, group_within, first_within}

-- The speaker is the one that all exclusive turns give to the segment's first unit, and the mark
-- says whether the segment meets a regular turn that is marked as overlapping.
pub record IsFaithful (tolerance : ℕ) (exclusive regular : List SpeakerTurn) (d : DialogueSegment)
    : Type 0 where
  pub interval : d.start_time_us < d.end_time_us
  pub marked : d.is_overlapping ≡ any_marked d.start_time_us d.end_time_us regular
  pub unit_end : ℕ
  pub unit_within : unit_end ≤ d.end_time_us
  pub cluster :
      d.speaker_cluster_id
      ≡ (assign_among tolerance exclusive d.start_time_us unit_end).speaker_cluster_id
  pub turn :
      d.speaker_turn_id
      ≡ (assign_among tolerance exclusive d.start_time_us unit_end).speaker_turn_id
  pub method :
      d.assignment_method ≡ (assign_among tolerance exclusive d.start_time_us unit_end).method

-- Each segment ends by the start of every later one.
abbrev pub InOrder : List DialogueSegment → Type 0
InOrder [] = Unit
InOrder (d ∷ ds) = All (λ e. d.end_time_us ≤ e.start_time_us) ds × InOrder ds

InOrder-snoc :
    (ds : List DialogueSegment) (e : DialogueSegment)
    → InOrder ds
    → All (λ d. d.end_time_us ≤ e.start_time_us) ds
    → InOrder (ds ++ e ∷ [])
InOrder-snoc [] e o h = (tt, tt)
InOrder-snoc (d ∷ ds) e (k, o) (h, hs) = (
  All-append (λ x. d.end_time_us ≤ x.start_time_us) ds (e ∷ []) k (h, tt),
  InOrder-snoc ds e o hs,
)

-- The segments numbered from `n` on.
abbrev pub NumberedFrom : ℕ → List DialogueSegment → Type 0
NumberedFrom n [] = Unit
NumberedFrom n (d ∷ ds) = (d.sequence_number ≡ n) × NumberedFrom (suc n) ds

NumberedFrom-snoc :
    (n : ℕ) (ds : List DialogueSegment) (e : DialogueSegment)
    → NumberedFrom n ds
    → e.sequence_number ≡ n + length ds
    → NumberedFrom n (ds ++ e ∷ [])
NumberedFrom-snoc n [] e o h = (omega arith, tt)
NumberedFrom-snoc n (d ∷ ds) e (k, o) h = (k, NumberedFrom-snoc (suc n) ds e o (omega arith))

module _ (tolerance : ℕ) (exclusive regular : List SpeakerTurn) (ordered : StartOrdered exclusive)
    (non_empty : NonEmpty exclusive) where
  -- The loop's invariant: what stands in `dialogueSegments` ended by `bound`.
  pub record IsTimeline (bound : ℕ) (progress : Progress) : Type 0 where
    pub faithful : All (IsFaithful tolerance exclusive regular) progress.dialogue_segments
    pub in_order : InOrder progress.dialogue_segments
    pub numbered : NumberedFrom 0 progress.dialogue_segments
    pub ended : All (λ d. d.end_time_us ≤ bound) progress.dialogue_segments
    pub from : ℕ
    pub tracks : Tracks from regular progress.overlap_cursor
    pub within : from ≤ bound

  module _ (segment : TranscriptSegment) (bound limit : ℕ) (progress : Progress) (u : AssignedUnit)
      (us rest : List AssignedUnit) (t : IsTimeline bound progress)
      (a : AssignedWithin tolerance exclusive ordered non_empty bound limit
        ((u ∷ us) ++ rest)) where
    abbrev pub start : ℕ
    start = group_start segment (u ∷ us)

    abbrev pub end : ℕ
    end = group_end segment (u ∷ us)

    abbrev pushed : DialogueSegment
    pushed =
        dialogue_segment_of segment (u ∷ us) (has_overlap start end progress.overlap_cursor).1
          (length progress.dialogue_segments)

    pub bounds :
        (bound ≤ start)
        × (start < end)
        × (end ≤ limit)
        × AssignedWithin tolerance exclusive ordered non_empty end limit rest
    bounds = group_within tolerance exclusive ordered non_empty segment bound limit u us rest a

    pushed-IsFaithful : IsFaithful tolerance exclusive regular pushed
    unfolding dialogue_segment_of
    pushed-IsFaithful = record {
      interval = bounds.1;
      marked =
          let (h, k, l, m) = bounds in
          has_overlap-eq-any_marked t.from start end regular progress.overlap_cursor t.tracks
            (omega arith) k;
      unit_end = u.timed.end_time_us;
      unit_within =
          first_within tolerance exclusive ordered non_empty segment bound limit u us rest a;
      cluster = ap (λ x. x.speaker_cluster_id) a.3;
      turn = ap (λ x. x.speaker_turn_id) a.3;
      method = ap (λ x. x.method) a.3;
    }

    pub emit_group-IsTimeline : IsTimeline end (emit_group segment progress (u ∷ us))
    unfolding emit_group
    emit_group-IsTimeline =
        let (h, k, l, m) = bounds in
        record {
          faithful =
              All-append _ progress.dialogue_segments (pushed ∷ []) t.faithful
                (pushed-IsFaithful, tt);
          in_order =
              InOrder-snoc progress.dialogue_segments pushed t.in_order
                (unfold dialogue_segment_of in All-map (λ d e. omega arith) _ t.ended);
          numbered =
              NumberedFrom-snoc 0 progress.dialogue_segments pushed t.numbered
                (unfold dialogue_segment_of in omega arith);
          ended =
              All-append _ progress.dialogue_segments (pushed ∷ [])
                (All-map (λ d e. omega arith) _ t.ended)
                (unfold dialogue_segment_of in (omega arith, tt));
          from = start;
          tracks =
              has_overlap-Tracks t.from start end regular progress.overlap_cursor t.tracks
                (omega arith);
          within = omega arith;
        }
