-- ===== src/Timeline/Assign/Refines.antt =====
-- The calls of `assign` on one cursor give the assignments that a search through all turns gives.
use mathlib.Core.List.{foldl, head?}
use voice_verse_ai.Common.{
  ℕ, ◌≤◌, ◌<◌, ◌≡◌, refl, ap, ◌&&◌, none, List, [], ◌∷◌, map, ltb, All-map, keep, arith,
}
use voice_verse_ai.Common.Keep.{keep-ext}
use voice_verse_ai.Common.Sort.{sort_by}
use voice_verse_ai.Timeline.Types.{SpeakerTurn, UnitAssignment}
use voice_verse_ai.Timeline.Compare.{overlap_us}
use voice_verse_ai.Timeline.Assign.{
  AssignmentCursor, new_assignment_cursor, later_ended, Overlap, best_overlap, advance, assign,
  compare_overlaps,
}
use voice_verse_ai.Timeline.Assign.Retire.{StartOrdered}
use voice_verse_ai.Timeline.Assign.Sweep.{
  starts_before, ends_after, ends_by, last_ended, assign_among, NonEmpty, Follows,
  new_assignment_cursor-Follows, advance-Follows,
}

-- Turns outside the unit overlap it by nothing.
overlaps_of_active :
    (start end : ℕ) (turns : List SpeakerTurn)
    → keep
        (λ (o : Overlap). ltb 0 o.overlap)
        (map
          (λ (turn : SpeakerTurn). record {
            overlap = overlap_us start end turn.start_time_us turn.end_time_us;
            turn = turn;
          })
          (keep (λ t. starts_before end t && ends_after start t) turns))
      ≡ keep
          (λ (o : Overlap). ltb 0 o.overlap)
          (map
            (λ (turn : SpeakerTurn). record {
              overlap = overlap_us start end turn.start_time_us turn.end_time_us;
              turn = turn;
            })
            turns)
unfolding overlap_us
overlaps_of_active start end [] = refl
overlaps_of_active start end (t ∷ ts) = ground (arith, overlaps_of_active start end ts)

best_overlap_of_active :
    (start end : ℕ) (turns : List SpeakerTurn)
    → best_overlap start end (keep (λ t. starts_before end t && ends_after start t) turns)
      ≡ best_overlap start end turns
unfolding best_overlap
best_overlap_of_active start end turns =
    ap (λ (os : List Overlap). head? (sort_by compare_overlaps os))
      (overlaps_of_active start end turns)

-- A turn that ended by the unit's start has started before its end.
last_ended_of_started :
    (start end : ℕ) (turns : List SpeakerTurn)
    → NonEmpty turns
    → start < end
    → foldl later_ended none (keep (λ t. starts_before end t && ends_by start t) turns)
      ≡ last_ended start turns
unfolding last_ended
last_ended_of_started start end turns non_empty h =
    ap (foldl later_ended none) (keep-ext _ _ turns (All-map (λ t k. ground arith) turns non_empty))

module _ (tolerance start end : ℕ) (turns : List SpeakerTurn) (cursor : AssignmentCursor) where
  pub assign-eq-assign_among :
      Follows start end turns (advance start end cursor)
      → NonEmpty turns
      → start < end
      → (assign tolerance start end cursor).1 ≡ assign_among tolerance turns start end
  unfolding assign assign_among
  assign-eq-assign_among f non_empty h = rw (
    f.active_are,
    f.pending_are,
    f.latest_is,
    best_overlap_of_active start end turns,
    last_ended_of_started start end turns non_empty h,
  )

-- Successive calls of `assign` on one cursor.
unfoldable pub assignments : ℕ → AssignmentCursor → List (ℕ × ℕ) → List UnitAssignment
unfolding assign
assignments tolerance cursor [] = []
assignments tolerance cursor ((start, end) ∷ units) =
    (assign tolerance start end cursor).1
    ∷ assignments tolerance (assign tolerance start end cursor).0 units

-- Non-empty units whose starts and ends ascend, from `low_start` and `low_end` on.
abbrev pub AscendingUnits : ℕ → ℕ → List (ℕ × ℕ) → Type 0
AscendingUnits low_start low_end [] = Unit
AscendingUnits low_start low_end ((start, end) ∷ units) =
    (low_start ≤ start) × (low_end ≤ end) × (start < end) × AscendingUnits start end units

assignments-Follows :
    (tolerance low_start low_end : ℕ) (turns : List SpeakerTurn) (cursor : AssignmentCursor)
    (units : List (ℕ × ℕ))
    → StartOrdered turns
    → NonEmpty turns
    → Follows low_start low_end turns cursor
    → low_start ≤ low_end
    → AscendingUnits low_start low_end units
    → assignments tolerance cursor units ≡ map (λ u. assign_among tolerance turns u.0 u.1) units
unfolding assignments
assignments-Follows tolerance low_start low_end turns cursor [] o n f l a = refl
assignments-Follows tolerance low_start low_end turns cursor ((start, end) ∷ units) o n f l
      (hs, he, h, a) =
    let f' = advance-Follows low_start low_end start end turns cursor o n f hs he l in
    cc (
      assign-eq-assign_among tolerance start end turns cursor f' n h,
      assignments-Follows tolerance start end turns (assign tolerance start end cursor).0 units o n
          (unfold assign in f') (omega arith) a,
    )

-- A new cursor over non-empty turns ordered by their start, called for non-empty units whose starts
-- and ends ascend, assigns each unit exactly as `assign_among` does, which has no state and searches
-- through all the turns.
pub assignments-eq-assign_among :
    (tolerance : ℕ) (turns : List SpeakerTurn) (units : List (ℕ × ℕ))
    → StartOrdered turns
    → NonEmpty turns
    → AscendingUnits 0 0 units
    → assignments tolerance (new_assignment_cursor turns) units
      ≡ map (λ u. assign_among tolerance turns u.0 u.1) units
assignments-eq-assign_among tolerance turns units o n a =
    assignments-Follows tolerance 0 0 turns (new_assignment_cursor turns) units o n
      (new_assignment_cursor-Follows turns) (omega arith) a
