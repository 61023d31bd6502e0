-- ===== src/Timeline/Materialize/Assigned.antt =====
-- The units of a segment with their assignments, and the groups that they form.
use voice_verse_ai.Common.{ℕ, ◌≤◌, ◌<◌, ◌≡◌, List, [], ◌∷◌, ◌++◌, arith}
use voice_verse_ai.Timeline.Types.{TranscriptSegment, SpeakerTurn, TimedUnit, AssignedUnit}
use voice_verse_ai.Timeline.Assign.{AssignmentCursor, new_assignment_cursor, assign}
use voice_verse_ai.Timeline.Assign.Retire.{StartOrdered}
use voice_verse_ai.Timeline.Assign.Sweep.{
  NonEmpty, Follows, new_assignment_cursor-Follows, advance-Follows, assign_among,
}
use voice_verse_ai.Timeline.Assign.Refines.{assign-eq-assign_among}
use voice_verse_ai.Timeline.Materialize.{assign_units, group_start, group_end}
use voice_verse_ai.Timeline.Materialize.Shape.{UnitsWithin}

-- The cursor has seen units up to `bound`.
pub record CursorAt (bound : ℕ) (turns : List SpeakerTurn) (cursor : AssignmentCursor)
    : Type 0 where
  pub start : ℕ
  pub end : ℕ
  pub follows : Follows start end turns cursor
  pub ascending : start ≤ end
  pub within : end ≤ bound

pub new_assignment_cursor-CursorAt :
    (turns : List SpeakerTurn) → CursorAt 0 turns (new_assignment_cursor turns)
new_assignment_cursor-CursorAt turns = record {
  start = 0;
  end = 0;
  follows = new_assignment_cursor-Follows turns;
  ascending = omega arith;
  within = omega arith;
}

pub CursorAt-mono :
    (low high : ℕ) (turns : List SpeakerTurn) (cursor : AssignmentCursor)
    → low ≤ high
    → CursorAt low turns cursor
    → CursorAt high turns cursor
CursorAt-mono low high turns cursor h c = record {
  start = c.start;
  end = c.end;
  follows = c.follows;
  ascending = c.ascending;
  within = omega arith;
}

module _ (tolerance : ℕ) (turns : List SpeakerTurn) (ordered : StartOrdered turns)
    (non_empty : NonEmpty turns) where
  -- Non-empty units, one after the other, each with the assignment that all turns give it.
  abbrev pub AssignedWithin : ℕ → ℕ → List AssignedUnit → Type 0
  AssignedWithin low limit [] = Unit
  AssignedWithin low limit (u ∷ us) =
      (low ≤ u.timed.start_time_us)
      × (u.timed.start_time_us < u.timed.end_time_us)
      × (u.timed.end_time_us ≤ limit)
      × (u.assignment ≡ assign_among tolerance turns u.timed.start_time_us u.timed.end_time_us)
      × AssignedWithin u.timed.end_time_us limit us

  assign-CursorAt :
      (low start end : ℕ) (cursor : AssignmentCursor)
      → CursorAt low turns cursor
      → low ≤ start
      → start < end
      → CursorAt end turns (assign tolerance start end cursor).0
  unfolding assign
  assign-CursorAt low start end cursor c h k = record {
    start = start;
    end = end;
    follows =
        advance-Follows c.start c.end start end turns cursor ordered non_empty c.follows
          (omega arith) (omega arith) c.ascending;
    ascending = omega arith;
    within = omega arith;
  }

  assign_lem :
      (low start end : ℕ) (cursor : AssignmentCursor)
      → CursorAt low turns cursor
      → low ≤ start
      → start < end
      → (assign tolerance start end cursor).1 ≡ assign_among tolerance turns start end
  assign_lem low start end cursor c h k =
      assign-eq-assign_among tolerance start end turns cursor
        (advance-Follows c.start c.end start end turns cursor ordered non_empty c.follows
          (omega arith) (omega arith) c.ascending)
        non_empty k

  pub assign_units-AssignedWithin :
      (low limit : ℕ) (cursor : AssignmentCursor) (units : List TimedUnit)
      → CursorAt low turns cursor
      → UnitsWithin low limit units
      → AssignedWithin low limit (assign_units tolerance cursor units).1
  unfolding assign_units
  assign_units-AssignedWithin low limit cursor [] c u = tt
  assign_units-AssignedWithin low limit cursor (unit ∷ units) c (h, k, l, us) =
      let (start, end) : ℕ × ℕ = (unit.start_time_us, unit.end_time_us) in
      (
        h,
        k,
        l,
        assign_lem low start end cursor c h k,
        assign_units-AssignedWithin end limit (assign tolerance start end cursor).0 units
            (assign-CursorAt low start end cursor c h k) us,
      )

  pub assign_units-CursorAt :
      (low limit : ℕ) (cursor : AssignmentCursor) (units : List TimedUnit)
      → CursorAt low turns cursor
      → low ≤ limit
      → UnitsWithin low limit units
      → CursorAt limit turns (assign_units tolerance cursor units).0
  unfolding assign_units
  assign_units-CursorAt low limit cursor [] c b u = CursorAt-mono low limit turns cursor b c
  assign_units-CursorAt low limit cursor (unit ∷ units) c b (h, k, l, us) =
      let (start, end) : ℕ × ℕ = (unit.start_time_us, unit.end_time_us) in
      assign_units-CursorAt end limit (assign tolerance start end cursor).0 units
        (assign-CursorAt low start end cursor c h k) l us

  -- A group at the front, and the units after it.
  pub group_within :
      (segment : TranscriptSegment) (low limit : ℕ) (u : AssignedUnit) (us rest : List AssignedUnit)
      → AssignedWithin low limit ((u ∷ us) ++ rest)
      → (low ≤ group_start segment (u ∷ us))
        × (group_start segment (u ∷ us) < group_end segment (u ∷ us))
        × (group_end segment (u ∷ us) ≤ limit)
        × AssignedWithin (group_end segment (u ∷ us)) limit rest
  unfolding group_start group_end
  group_within segment low limit u [] rest a = (a.0, a.1, a.2, a.4)
  group_within segment low limit u (v ∷ vs) rest a =
      let (h, k, l, m) = group_within segment u.timed.end_time_us limit v vs rest a.4 in
      (a.0, omega arith, l, m)

  pub first_within :
      (segment : TranscriptSegment) (low limit : ℕ) (u : AssignedUnit) (us rest : List AssignedUnit)
      → AssignedWithin low limit ((u ∷ us) ++ rest)
      → u.timed.end_time_us ≤ group_end segment (u ∷ us)
  unfolding group_end group_start
  first_within segment low limit u [] rest a = omega arith
  first_within segment low limit u (v ∷ vs) rest a =
      let (h, k, l, m) = group_within segment u.timed.end_time_us limit v vs rest a.4 in omega arith
