-- ===== src/Timeline/Materialize/Shape.antt =====
-- The order of the turns and of the units that the loops run over.
use voice_verse_ai.Common.{
  ℕ, ◌≤◌, ◌<◌, String, Bool, Option, none, some, List, [], ◌∷◌, map, All, All-map, All-keep, keep,
  arith, not,
}
use voice_verse_ai.Common.Sort.{IsOrder, NotAfter, IsSorted, sort_by, All-sort_by, IsSorted-sort_by}
use voice_verse_ai.Timeline.Types.{Word, TranscriptSegment, SpeakerTurn, TimedUnit}
use voice_verse_ai.Timeline.Compare.{
  compare_turns, turn_interval, compare_words, compare_interval-IsOrder,
}
use voice_verse_ai.Timeline.Overlap.Merged.{IsOrdered}
use voice_verse_ai.Timeline.Assign.Retire.{StartOrdered}
use voice_verse_ai.Timeline.Assign.Sweep.{NonEmpty}
use voice_verse_ai.Timeline.Group.{units_for_segment, units_of_words, word_unit}
use voice_verse_ai.Timeline.Statistics.{exclusive_turns_of, regular_turns_of}
use voice_verse_ai.Timeline.Check.Sound.{IsTurn, IsWord, ValidWords, IsSegment}

compare_turns-IsOrder : IsOrder compare_turns
unfolding compare_turns
compare_turns-IsOrder = record {
  flip = λ a b. compare_interval-IsOrder.flip (turn_interval a) (turn_interval b);
  trans =
      λ a b c. compare_interval-IsOrder.trans (turn_interval a) (turn_interval b) (turn_interval c);
}

start-le_of_NotAfter :
    (a b : SpeakerTurn) → NotAfter compare_turns a b → a.start_time_us ≤ b.start_time_us
unfolding compare_turns
start-le_of_NotAfter a b h = ground arith

StartOrdered-of_IsSorted : (ts : List SpeakerTurn) → IsSorted compare_turns ts → StartOrdered ts
StartOrdered-of_IsSorted [] s = tt
StartOrdered-of_IsSorted (t ∷ ts) (h, s) =
    (All-map (λ u k. start-le_of_NotAfter t u k) ts h, StartOrdered-of_IsSorted ts s)

IsOrdered-of_StartOrdered :
    (low : ℕ) (ts : List SpeakerTurn)
    → All (λ t. low ≤ t.start_time_us) ts
    → NonEmpty ts
    → StartOrdered ts
    → IsOrdered low ts
IsOrdered-of_StartOrdered low [] a n s = tt
IsOrdered-of_StartOrdered low (t ∷ ts) (h, _) (n, ns) (k, s) =
    (h, n, IsOrdered-of_StartOrdered t.start_time_us ts k ns s)

kept-StartOrdered :
    (p : SpeakerTurn → Bool) (turns : List SpeakerTurn)
    → StartOrdered (sort_by compare_turns (keep p turns))
kept-StartOrdered p turns =
    StartOrdered-of_IsSorted _ (IsSorted-sort_by compare_turns compare_turns-IsOrder (keep p turns))

module _ (ids : List String) (turns : List SpeakerTurn) (valid : All (IsTurn ids) turns) where
  kept-NonEmpty : (p : SpeakerTurn → Bool) → NonEmpty (sort_by compare_turns (keep p turns))
  kept-NonEmpty p =
      All-sort_by (λ t. t.start_time_us < t.end_time_us) compare_turns (keep p turns)
        (All-keep (λ t. t.start_time_us < t.end_time_us) p turns
          (All-map (λ t h. h.interval) turns valid))

  pub exclusive_turns_of-NonEmpty : NonEmpty (exclusive_turns_of turns)
  unfolding exclusive_turns_of
  exclusive_turns_of-NonEmpty = kept-NonEmpty _

  pub exclusive_turns_of-StartOrdered : StartOrdered (exclusive_turns_of turns)
  unfolding exclusive_turns_of
  exclusive_turns_of-StartOrdered = kept-StartOrdered (λ t. t.is_exclusive) turns

  pub regular_turns_of-IsOrdered : IsOrdered 0 (regular_turns_of turns)
  unfolding regular_turns_of
  regular_turns_of-IsOrdered =
      IsOrdered-of_StartOrdered 0 (sort_by compare_turns (keep (λ t. not t.is_exclusive) turns))
        (All-map (λ t h. omega arith) _ (kept-NonEmpty (λ t. not t.is_exclusive)))
        (kept-NonEmpty (λ t. not t.is_exclusive))
        (kept-StartOrdered (λ t. not t.is_exclusive) turns)

-- Non-empty units, one after the other, from `low` to `limit`.
abbrev pub UnitsWithin : ℕ → ℕ → List TimedUnit → Type 0
UnitsWithin low limit [] = Unit
UnitsWithin low limit (u ∷ us) =
    (low ≤ u.start_time_us)
    × (u.start_time_us < u.end_time_us)
    × (u.end_time_us ≤ limit)
    × UnitsWithin u.end_time_us limit us

words-UnitsWithin :
    (segment : TranscriptSegment) (low : ℕ) (previous : Option ℕ) (words : List Word)
    → ((w : Word) → IsWord segment previous w → low ≤ w.start_time_us)
    → ValidWords segment previous words
    → UnitsWithin low segment.end_time_us (map word_unit words)
words-UnitsWithin segment low previous [] h v = tt
words-UnitsWithin segment low previous (w ∷ ws) h (v, vs) = (
  h w v,
  v.interval,
  v.to_end,
  words-UnitsWithin segment w.end_time_us (some w.end_time_us) ws (λ x k. k.order) vs,
)

pub units_for_segment-UnitsWithin :
    (previous : Option ℕ) (segment : TranscriptSegment)
    → IsSegment previous segment
    → UnitsWithin segment.start_time_us segment.end_time_us (units_for_segment segment)
unfolding units_for_segment
units_for_segment-UnitsWithin previous segment s = go segment.words s.words
  where
    go :
        (ws : List Word)
        → ValidWords segment none (sort_by compare_words ws)
        → UnitsWithin segment.start_time_us segment.end_time_us (units_of_words segment ws)
    go [] v = (omega arith, s.interval, omega arith, tt)
    go (w ∷ ws) v =
        words-UnitsWithin segment segment.start_time_us none (sort_by compare_words (w ∷ ws))
          (λ x k. k.from_start) v
