-- ===== src/Timeline/Assign.antt =====
-- `TurnAssignmentCursor` of the timeline materializer.
pub mod Retire
pub mod Sweep
pub mod Refines
pub mod Best
pub mod Nearest
pub mod Chosen
use mathlib.Core.List.{head?}
use voice_verse_ai.Common.{
  ℕ, ◌-◌, ◌*◌, ◌/◌, String, Bool, true, false, Option, none, some, List, [], ◌∷◌, ◌++◌, map, leb,
  ltb, keep, if◌then◌else◌,
}
use voice_verse_ai.Common.Sort.{Comparator, or_else, sort_by}
use voice_verse_ai.Timeline.Types.{
  SpeakerTurn, UnitAssignment, maximum_overlap, nearest_turn, unresolved,
}
use voice_verse_ai.Timeline.Compare.{compare_big_int, compare_turns, overlap_us}

-- `pending` is `turns` from `cursor` on; the index only moves forward.
pub record AssignmentCursor : Type 0 where
  pub active : List SpeakerTurn
  pub pending : List SpeakerTurn
  pub latest_ended : Option SpeakerTurn

unfoldable pub new_assignment_cursor : List SpeakerTurn → AssignmentCursor
new_assignment_cursor turns = record { active = []; pending = turns; latest_ended = none }

-- The first `while`: the active and the pending turns after it.
unfoldable pub admit : ℕ → List SpeakerTurn → List SpeakerTurn → List SpeakerTurn × List SpeakerTurn
admit end active [] = (active, [])
admit end active (turn ∷ turns) =
    let rest = admit end (active ++ turn ∷ []) turns in
    if ltb turn.start_time_us end then rest else (active, turn ∷ turns)

unfoldable pub later_ended : Option SpeakerTurn → SpeakerTurn → Option SpeakerTurn
later_ended none turn = some turn
later_ended (some latest) turn =
    if ltb latest.end_time_us turn.end_time_us then some turn else some latest

-- The `filter` that updates `latestEnded` on the way.
unfoldable pub retire :
    ℕ → List SpeakerTurn → Option SpeakerTurn → List SpeakerTurn × Option SpeakerTurn
unfolding later_ended
retire start [] latest = ([], latest)
retire start (turn ∷ turns) latest = elim (leb turn.end_time_us start) [
  | true ↦ retire start turns (later_ended latest turn)
  | false ↦ let rest = retire start turns latest in (turn ∷ rest.0, rest.1)
]

pub record Overlap : Type 0 where
  pub overlap : ℕ
  pub turn : SpeakerTurn

unfoldable pub compare_overlaps : Comparator Overlap
unfolding compare_big_int compare_turns or_else
compare_overlaps left right =
    or_else (compare_big_int right.overlap left.overlap) (compare_turns left.turn right.turn)

-- `overlaps[0]`
unfoldable pub best_overlap : ℕ → ℕ → List SpeakerTurn → Option Overlap
unfolding compare_overlaps overlap_us sort_by
best_overlap start end active = head? (
    sort_by compare_overlaps (
      keep (λ o. ltb 0 o.overlap)
        (map
          (λ (turn : SpeakerTurn). record {
            overlap = overlap_us start end turn.start_time_us turn.end_time_us;
            turn = turn;
          })
          active)))

pub record Near : Type 0 where
  pub gap : ℕ
  pub turn : SpeakerTurn

-- A candidate whose gap, `to - from`, is negative fails the filter.
unfoldable pub within_tolerance : ℕ → ℕ → ℕ → SpeakerTurn → List Near
within_tolerance tolerance from to turn =
    if leb from to
    then (if leb (to - from) tolerance then record { gap = to - from; turn = turn } ∷ [] else [])
    else []

unfoldable pub compare_gaps : Comparator Near
unfolding compare_big_int
compare_gaps left right = compare_big_int left.gap right.gap

unfoldable pub after_latest : ℕ → ℕ → Option SpeakerTurn → List Near
unfolding within_tolerance
after_latest tolerance start none = []
after_latest tolerance start (some latest) =
    within_tolerance tolerance latest.end_time_us start latest

unfoldable pub before_next : ℕ → ℕ → Option SpeakerTurn → List Near
unfolding within_tolerance
before_next tolerance end none = []
before_next tolerance end (some next) = within_tolerance tolerance end next.start_time_us next

-- `nearest`, from `latestEnded` and `this.turns[this.cursor]`
unfoldable pub nearest : ℕ → ℕ → ℕ → Option SpeakerTurn → Option SpeakerTurn → Option Near
unfolding after_latest before_next compare_gaps sort_by
nearest tolerance start end latest next =
    head?
      (sort_by compare_gaps (after_latest tolerance start latest ++ before_next tolerance end next))

-- The three `return`s of `assign`.
unfoldable pub conclude : ℕ → ℕ → Option Overlap → Option Near → UnitAssignment
conclude start end (some best) near = record {
  confidence_basis_points = some (best.overlap * 10000 / (end - start));
  method = maximum_overlap;
  speaker_cluster_id = some best.turn.speaker_cluster_id;
  speaker_turn_id = some best.turn.id;
}
conclude start end none (some near) = record {
  confidence_basis_points = none;
  method = nearest_turn;
  speaker_cluster_id = some near.turn.speaker_cluster_id;
  speaker_turn_id = some near.turn.id;
}
conclude start end none none = record {
  confidence_basis_points = none;
  method = unresolved;
  speaker_cluster_id = none;
  speaker_turn_id = none;
}

unfoldable pub advance : ℕ → ℕ → AssignmentCursor → AssignmentCursor
unfolding admit retire
advance start end cursor =
    let admitted = admit end cursor.active cursor.pending in
    let retired = retire start admitted.0 cursor.latest_ended in
    record { active = retired.0; pending = admitted.1; latest_ended = retired.1 }

unfoldable pub assign : ℕ → ℕ → ℕ → AssignmentCursor → AssignmentCursor × UnitAssignment
unfolding advance best_overlap nearest conclude
assign tolerance start end cursor =
    let moved = advance start end cursor in
    (
      moved,
      conclude start end (best_overlap start end moved.active)
          (nearest tolerance start end moved.latest_ended (head? moved.pending)),
    )
