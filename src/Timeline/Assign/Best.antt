-- ===== src/Timeline/Assign/Best.antt =====
-- What the chosen turn of an assignment is, among all turns.
use mathlib.Core.List.{Mem}
use voice_verse_ai.Common.{
  ℕ, ◌≤◌, ◌<◌, ◌≡◌, refl, none, some, List, [], ◌∷◌, map, ltb, All, All-mem, keep, arith,
  Bool-cases, inl, inr, Ordering,
}
use voice_verse_ai.Common.Sort.{
  NotAfter, IsOrder, swap_order, head-sort_by, head-sort_by-All, head-sort_by-none,
}
use voice_verse_ai.Timeline.Types.{SpeakerTurn}
use voice_verse_ai.Timeline.Compare.{overlap_us}
use voice_verse_ai.Timeline.Assign.{Overlap, best_overlap, compare_overlaps}

compare_overlaps-flip : (a b : Overlap) → compare_overlaps a b ≡ swap_order (compare_overlaps b a)
unfolding compare_overlaps swap_order
compare_overlaps-flip a b = ground arith

compare_overlaps_trans :
    (a b c : Overlap)
    → (compare_overlaps a b ≡ Ordering.gt → ⊥)
    → (compare_overlaps b c ≡ Ordering.gt → ⊥)
    → compare_overlaps a c ≡ Ordering.gt
    → ⊥
unfolding compare_overlaps
compare_overlaps_trans a b c h k e = ground arith

compare_overlaps-IsOrder : IsOrder compare_overlaps
compare_overlaps-IsOrder = record {
  flip = compare_overlaps-flip;
  trans = λ a b c h k e. compare_overlaps_trans a b c h k e;
}

-- By how many microseconds a turn overlaps the unit.
abbrev pub overlap_of : ℕ → ℕ → SpeakerTurn → ℕ
overlap_of start end t = overlap_us start end t.start_time_us t.end_time_us

module _ (start end : ℕ) where
  abbrev as_overlap : SpeakerTurn → Overlap
  as_overlap turn = record { overlap = overlap_of start end turn; turn = turn }

  overlap_of-le_best :
      (best : Overlap) (turns : List SpeakerTurn)
      → All (NotAfter compare_overlaps best) (keep (λ o. ltb 0 o.overlap) (map as_overlap turns))
      → All (λ t. overlap_of start end t ≤ best.overlap) turns
  unfolding compare_overlaps
  overlap_of-le_best best [] h = tt
  overlap_of-le_best best (t ∷ ts) h = elim (Bool-cases (ltb 0 (overlap_of start end t))) [
    | inl e ↦ let (p, ps) = rw (e, keep) at h in (ground arith, overlap_of-le_best best ts ps)
    | inr e ↦ (ground arith, overlap_of-le_best best ts (rw (e, keep) at h))
  ]

  abbrev IsOverlapOf : List SpeakerTurn → Overlap → Type 0
  IsOverlapOf turns o =
      (o.overlap ≡ overlap_of start end o.turn) × (0 < o.overlap) × Mem o.turn turns

  kept-IsOverlapOf :
      (turns ts : List SpeakerTurn)
      → All (λ t. Mem t turns) ts
      → All (IsOverlapOf turns) (keep (λ o. ltb 0 o.overlap) (map as_overlap ts))
  kept-IsOverlapOf turns [] h = tt
  kept-IsOverlapOf turns (t ∷ ts) (m, ms) = elim (Bool-cases (ltb 0 (overlap_of start end t))) [
    | inl e ↦ rw (e, keep) ((refl, ground arith, m), kept-IsOverlapOf turns ts ms)
    | inr e ↦ rw (e, keep) (kept-IsOverlapOf turns ts ms)
  ]

  none_kept :
      (ts : List SpeakerTurn)
      → keep (λ o. ltb 0 o.overlap) (map as_overlap ts) ≡ []
      → All (λ t. overlap_of start end t ≡ 0) ts
  none_kept [] h = tt
  none_kept (t ∷ ts) h = elim (Bool-cases (ltb 0 (overlap_of start end t))) [
    | inl e ↦ cc (rw (e, keep) at h)
    | inr e ↦ (ground arith, none_kept ts (rw (e, keep) at h))
  ]

  module _ (turns : List SpeakerTurn) where
    -- What `overlaps[0]` is when there is one.
    pub best_overlap_max :
        (best : Overlap)
        → best_overlap start end turns ≡ some best
        → All (λ t. overlap_of start end t ≤ best.overlap) turns
    unfolding best_overlap
    best_overlap_max best e =
        overlap_of-le_best best turns (head-sort_by compare_overlaps compare_overlaps-IsOrder _ e)

    pub best_overlap_is :
        (best : Overlap) → best_overlap start end turns ≡ some best → IsOverlapOf turns best
    unfolding best_overlap
    best_overlap_is best e =
        head-sort_by-All (IsOverlapOf turns) compare_overlaps _ e
          (kept-IsOverlapOf turns turns (All-mem turns))

    pub best_overlap-none :
        best_overlap start end turns ≡ none → All (λ t. overlap_of start end t ≡ 0) turns
    unfolding best_overlap
    best_overlap-none e = none_kept turns (head-sort_by-none compare_overlaps _ e)
