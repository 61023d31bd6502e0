-- ===== src/Timeline/Overlap/Sweep.antt =====
-- `IntervalOverlapCursor` answers like a search through all marked turns, as long as the queries
-- start in ascending order.
use voice_verse_ai.Common.{
  ℕ, ◌≤◌, ◌<◌, ◌≡◌, refl, ◌∙◌, Bool, true, false, List, [], ◌∷◌, leb, arith, if◌then◌else◌, map,
}
use voice_verse_ai.Timeline.Types.{SpeakerTurn}
use voice_verse_ai.Timeline.Overlap.{
  TimelineInterval, OverlapCursor, new_overlap_cursor, skip_ended, first_overlaps, has_overlap,
}
use voice_verse_ai.Timeline.Overlap.Merged.{
  any_interval, any_marked, IsDisjoint, IsOrdered, merged-IsDisjoint, any_interval-merged,
}

IsDisjoint-tail :
    (i : TimelineInterval) (is : List TimelineInterval) → IsDisjoint (i ∷ is) → IsDisjoint is
IsDisjoint-tail i [] d = tt
IsDisjoint-tail i (j ∷ is) d = d.2

skip_ended-IsDisjoint :
    (start : ℕ) (is : List TimelineInterval) → IsDisjoint is → IsDisjoint (skip_ended start is)
unfolding skip_ended
skip_ended-IsDisjoint start [] d = d
skip_ended-IsDisjoint start (i ∷ is) d =
    elim (leb i.end_time_us start)
      as (λ b. IsDisjoint (if b then skip_ended start is else i ∷ is)) [
        | true ↦ skip_ended-IsDisjoint start is (IsDisjoint-tail i is d)
        | false ↦ d
      ]

-- What the cursor passes meets no later query.
any_interval-skip_ended :
    (low start end : ℕ) (is : List TimelineInterval)
    → low ≤ start
    → any_interval start end (skip_ended low is) ≡ any_interval start end is
unfolding any_interval skip_ended
any_interval-skip_ended low start end [] h = refl
any_interval-skip_ended low start end (i ∷ is) h =
    ground (arith, any_interval-skip_ended low start end is h)

-- Past an interval that starts after the query's end, all do.
any_interval_after :
    (start end : ℕ) (i : TimelineInterval) (is : List TimelineInterval)
    → IsDisjoint (i ∷ is)
    → end ≤ i.start_time_us
    → any_interval start end (i ∷ is) ≡ false
unfolding any_interval
any_interval_after start end i [] d h = ground arith
any_interval_after start end i (j ∷ is) d h = ground (arith, any_interval_after start end j is d.2)

-- The first interval that has not ended by the query's start decides.
first_overlaps-skip_ended :
    (start end : ℕ) (is : List TimelineInterval)
    → IsDisjoint is
    → first_overlaps start end (skip_ended start is) ≡ any_interval start end is
unfolding first_overlaps skip_ended any_interval
first_overlaps-skip_ended start end [] d = refl
first_overlaps-skip_ended start end (i ∷ is) d = ground (
  arith,
  first_overlaps-skip_ended start end is (IsDisjoint-tail i is d),
  any_interval_after start end i is d,
)

-- The cursor's invariant: it answers every query from `low` on.
pub record Tracks (low : ℕ) (turns : List SpeakerTurn) (cursor : OverlapCursor) : Type 0 where
  pub disjoint : IsDisjoint cursor.intervals
  pub answers :
      (start end : ℕ)
      → low ≤ start
      → start < end
      → any_interval start end cursor.intervals ≡ any_marked start end turns

pub new_overlap_cursor-Tracks :
    (turns : List SpeakerTurn) → IsOrdered 0 turns → Tracks 0 turns (new_overlap_cursor turns)
unfolding new_overlap_cursor
new_overlap_cursor-Tracks turns o = record {
  disjoint = merged-IsDisjoint turns o;
  answers = λ start end h q. any_interval-merged turns start end o q;
}

module _ (low start end : ℕ) (turns : List SpeakerTurn) (cursor : OverlapCursor) where
  pub has_overlap-Tracks :
      Tracks low turns cursor → low ≤ start → Tracks start turns (has_overlap start end cursor).0
  unfolding has_overlap
  has_overlap-Tracks t h = record {
    disjoint = skip_ended-IsDisjoint start cursor.intervals t.disjoint;
    answers = λ s e k q.
        any_interval-skip_ended start s e cursor.intervals k ∙ t.answers s e (omega arith) q;
  }

  pub has_overlap-eq-any_marked :
      Tracks low turns cursor
      → low ≤ start
      → start < end
      → (has_overlap start end cursor).1 ≡ any_marked start end turns
  unfolding has_overlap
  has_overlap-eq-any_marked t h q =
      first_overlaps-skip_ended start end cursor.intervals t.disjoint ∙ t.answers start end h q

-- Successive calls of `hasOverlap` on one cursor.
unfoldable pub overlap_answers : OverlapCursor → List (ℕ × ℕ) → List Bool
unfolding has_overlap
overlap_answers cursor [] = []
overlap_answers cursor ((start, end) ∷ queries) =
    (has_overlap start end cursor).1 ∷ overlap_answers (has_overlap start end cursor).0 queries

-- Non-empty queries in ascending order of their start, none before `low`.
abbrev pub AscendingQueries : ℕ → List (ℕ × ℕ) → Type 0
AscendingQueries low [] = Unit
AscendingQueries low ((start, end) ∷ queries) =
    (low ≤ start) × (start < end) × AscendingQueries start queries

overlap_answers-Tracks :
    (low : ℕ) (turns : List SpeakerTurn) (cursor : OverlapCursor) (queries : List (ℕ × ℕ))
    → Tracks low turns cursor
    → AscendingQueries low queries
    → overlap_answers cursor queries ≡ map (λ q. any_marked q.0 q.1 turns) queries
unfolding overlap_answers
overlap_answers-Tracks low turns cursor [] t a = refl
overlap_answers-Tracks low turns cursor ((start, end) ∷ queries) t (h, q, a) = cc (
  has_overlap-eq-any_marked low start end turns cursor t h q,
  overlap_answers-Tracks start turns (has_overlap start end cursor).0 queries
      (has_overlap-Tracks low start end turns cursor t h) a,
)

-- A new cursor over non-empty turns ordered by their start, asked about non-empty intervals in
-- ascending order of their start, answers each exactly as a search through all turns marked as
-- overlapping would.
pub overlap_answers-eq-any_marked :
    (turns : List SpeakerTurn) (queries : List (ℕ × ℕ))
    → IsOrdered 0 turns
    → AscendingQueries 0 queries
    → overlap_answers (new_overlap_cursor turns) queries
      ≡ map (λ q. any_marked q.0 q.1 turns) queries
overlap_answers-eq-any_marked turns queries o a =
    overlap_answers-Tracks 0 turns (new_overlap_cursor turns) queries
      (new_overlap_cursor-Tracks turns o) a
