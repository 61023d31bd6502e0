-- ===== src/Timeline/Overlap/Merged.antt =====
-- The intervals that `mergeMarkedOverlapIntervals` returns: disjoint, in order, and overlapped by
-- the same queries as the marked turns.
use mathlib.Core.List.{foldl}
use voice_verse_ai.Common.{
  ℕ, ◌≤◌, ◌<◌, ◌≡◌, Bool, true, false, ◌&&◌, ◌||◌, List, [], ◌∷◌, ltb, All, arith, if◌then◌else◌,
}
use voice_verse_ai.Timeline.Types.{SpeakerTurn}
use voice_verse_ai.Timeline.Overlap.{
  TimelineInterval, extend_intervals, merge_step, merge_marked_overlap_intervals,
}

-- Does the half-open interval meet the half-open query?
abbrev pub meets : ℕ → ℕ → ℕ → ℕ → Bool
meets start end from to = ltb from end && ltb start to

unfoldable pub any_interval : ℕ → ℕ → List TimelineInterval → Bool
any_interval start end [] = false
any_interval start end (i ∷ is) =
    meets start end i.start_time_us i.end_time_us || any_interval start end is

-- Does a turn that is marked as overlapping meet the query?
unfoldable pub any_marked : ℕ → ℕ → List SpeakerTurn → Bool
any_marked start end [] = false
any_marked start end (t ∷ ts) =
    (t.is_overlapping && meets start end t.start_time_us t.end_time_us) || any_marked start end ts

-- Non-empty intervals, each starting after the end of the one before it.
abbrev pub IsDisjoint : List TimelineInterval → Type 0
IsDisjoint [] = Unit
IsDisjoint (i ∷ []) = i.start_time_us < i.end_time_us
IsDisjoint (i ∷ j ∷ is) =
    (i.start_time_us < i.end_time_us) × (i.end_time_us < j.start_time_us) × IsDisjoint (j ∷ is)

-- Non-empty turns, ordered by their start, none starting before `low`.
abbrev pub IsOrdered : ℕ → List SpeakerTurn → Type 0
IsOrdered low [] = Unit
IsOrdered low (t ∷ ts) =
    (low ≤ t.start_time_us) × (t.start_time_us < t.end_time_us) × IsOrdered t.start_time_us ts

abbrev StartsBy : ℕ → List TimelineInterval → Type 0
StartsBy high = All (λ i. i.start_time_us ≤ high)

extend_intervals-IsDisjoint :
    (is : List TimelineInterval) (t : SpeakerTurn)
    → IsDisjoint is
    → StartsBy t.start_time_us is
    → t.start_time_us < t.end_time_us
    → IsDisjoint (extend_intervals is t)
unfolding extend_intervals
extend_intervals-IsDisjoint [] t d s h = h
extend_intervals-IsDisjoint (i ∷ []) t d s h = ground arith
extend_intervals-IsDisjoint (i ∷ j ∷ []) t d s h = ground arith
extend_intervals-IsDisjoint (i ∷ j ∷ k ∷ is) t d s h =
    (d.0, d.1, extend_intervals-IsDisjoint (j ∷ k ∷ is) t d.2 s.1 h)

extend_intervals-StartsBy :
    (is : List TimelineInterval) (t : SpeakerTurn)
    → StartsBy t.start_time_us is
    → StartsBy t.start_time_us (extend_intervals is t)
unfolding extend_intervals
extend_intervals-StartsBy [] t s = ground arith
extend_intervals-StartsBy (i ∷ []) t s = ground arith
extend_intervals-StartsBy (i ∷ j ∷ is) t s = (s.0, extend_intervals-StartsBy (j ∷ is) t s.1)

any_interval-extend_intervals :
    (start end : ℕ) (is : List TimelineInterval) (t : SpeakerTurn)
    → start < end
    → StartsBy t.start_time_us is
    → any_interval start end (extend_intervals is t)
      ≡ (any_interval start end is || meets start end t.start_time_us t.end_time_us)
unfolding any_interval extend_intervals
any_interval-extend_intervals start end [] t q s = ground arith
any_interval-extend_intervals start end (i ∷ []) t q s = ground arith
any_interval-extend_intervals start end (i ∷ j ∷ is) t q s =
    ground (arith, any_interval-extend_intervals start end (j ∷ is) t q s.1)

StartsBy-mono :
    (low high : ℕ) (is : List TimelineInterval) → low ≤ high → StartsBy low is → StartsBy high is
StartsBy-mono low high [] h s = tt
StartsBy-mono low high (i ∷ is) h s = (omega arith, StartsBy-mono low high is h s.1)

-- The facts about one round of the loop, with the `continue` of an unmarked turn.
module _ (is : List TimelineInterval) (t : SpeakerTurn) (s : StartsBy t.start_time_us is) where
  merge_step-IsDisjoint :
      IsDisjoint is → t.start_time_us < t.end_time_us → IsDisjoint (merge_step is t)
  unfolding merge_step
  merge_step-IsDisjoint d h =
      elim t.is_overlapping as (λ b. IsDisjoint (if b then extend_intervals is t else is)) [
        | true ↦ extend_intervals-IsDisjoint is t d s h
        | false ↦ d
      ]

  merge_step-StartsBy : StartsBy t.start_time_us (merge_step is t)
  unfolding merge_step
  merge_step-StartsBy =
      elim t.is_overlapping
        as (λ b. StartsBy t.start_time_us (if b then extend_intervals is t else is)) [
          | true ↦ extend_intervals-StartsBy is t s
          | false ↦ s
        ]

  any_interval-merge_step :
      (start end : ℕ)
      → start < end
      → any_interval start end (merge_step is t) ≡ (
          any_interval start end is
          || (t.is_overlapping && meets start end t.start_time_us t.end_time_us))
  unfolding merge_step
  any_interval-merge_step start end q =
      ground (arith, any_interval-extend_intervals start end is t q s)

foldl-merge_step-IsDisjoint :
    (low : ℕ) (is : List TimelineInterval) (ts : List SpeakerTurn)
    → IsDisjoint is
    → StartsBy low is
    → IsOrdered low ts
    → IsDisjoint (foldl merge_step is ts)
foldl-merge_step-IsDisjoint low is [] d s o = d
foldl-merge_step-IsDisjoint low is (t ∷ ts) d s (h, k, o) =
    let s' = StartsBy-mono low t.start_time_us is h s in
    foldl-merge_step-IsDisjoint t.start_time_us (merge_step is t) ts
      (merge_step-IsDisjoint is t s' d k) (merge_step-StartsBy is t s') o

any_interval-foldl-merge_step :
    (low start end : ℕ) (is : List TimelineInterval) (ts : List SpeakerTurn)
    → start < end
    → StartsBy low is
    → IsOrdered low ts
    → any_interval start end (foldl merge_step is ts)
      ≡ (any_interval start end is || any_marked start end ts)
unfolding any_marked
any_interval-foldl-merge_step low start end is [] q s o = ground arith
any_interval-foldl-merge_step low start end is (t ∷ ts) q s (h, k, o) =
    let s' = StartsBy-mono low t.start_time_us is h s in
    ground (
      arith,
      any_interval-foldl-merge_step t.start_time_us start end (merge_step is t) ts q
          (merge_step-StartsBy is t s') o,
      any_interval-merge_step is t s' start end q,
    )

-- On non-empty turns ordered by their start, the merged intervals are non-empty and in order, with
-- a gap between any two.
pub merged-IsDisjoint :
    (turns : List SpeakerTurn)
    → IsOrdered 0 turns
    → IsDisjoint (merge_marked_overlap_intervals turns)
unfolding merge_marked_overlap_intervals
merged-IsDisjoint turns o = foldl-merge_step-IsDisjoint 0 [] turns tt tt o

-- On non-empty turns ordered by their start, a non-empty query meets a merged interval exactly when
-- it meets a turn that is marked as overlapping.
pub any_interval-merged :
    (turns : List SpeakerTurn) (start end : ℕ)
    → IsOrdered 0 turns
    → start < end
    → any_interval start end (merge_marked_overlap_intervals turns) ≡ any_marked start end turns
unfolding merge_marked_overlap_intervals any_interval
any_interval-merged turns start end o q = any_interval-foldl-merge_step 0 start end [] turns q tt o
