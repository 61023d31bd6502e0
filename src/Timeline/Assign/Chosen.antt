-- ===== src/Timeline/Assign/Chosen.antt =====
-- What each of the three assignment methods means, over all turns.
use mathlib.Core.List.{head?, Mem}
use voice_verse_ai.Common.{
  ℕ, ◌+◌, ◌-◌, ◌*◌, ◌/◌, ◌≤◌, ◌<◌, ◌≡◌, refl, true, false, Option, none, some, List, All, All-map,
  All-map2, keep, arith, inl, inr, ◌⊎◌,
}
use voice_verse_ai.Timeline.Types.{SpeakerTurn, maximum_overlap, unresolved}
use voice_verse_ai.Timeline.Compare.{overlap_us}
use voice_verse_ai.Timeline.Assign.{Overlap, Near, conclude}
use voice_verse_ai.Timeline.Assign.Retire.{StartOrdered}
use voice_verse_ai.Timeline.Assign.Sweep.{assign_among, last_ended, starts_from, ends_by, NonEmpty}
use voice_verse_ai.Timeline.Assign.Nearest.{
  gap_after, gap_before, EndedBy, ComesFrom, nearest-none, EndedLast, last_ended_cases, ComesFirst,
  first_to_come_cases,
}
use voice_verse_ai.Timeline.Assign.Best.{
  overlap_of, best_overlap_max, best_overlap_is, best_overlap-none,
}

-- `t` overlaps the unit, and no turn overlaps it more.
pub record IsMaximum (start end : ℕ) (turns : List SpeakerTurn) (t : SpeakerTurn) : Type 0 where
  pub listed : Mem t turns
  pub positive : 0 < overlap_of start end t
  pub greatest : All (λ u. overlap_of start end u ≤ overlap_of start end t) turns

conclude-maximum_overlap :
    (start end : ℕ) (best : Option Overlap) (near : Option Near)
    → (conclude start end best near).method ≡ maximum_overlap
    → (o : Overlap) × (best ≡ some o)
unfolding conclude
conclude-maximum_overlap start end (some o) near e = (o, refl)
conclude-maximum_overlap start end none (some n) e = cc e
conclude-maximum_overlap start end none none e = cc e

-- A unit assigned by maximum overlap gets the id and the cluster of a turn of the list that overlaps
-- it, and that no turn of the list overlaps more; the confidence is the share of the unit that the
-- turn covers, in basis points rounded down.
pub assign_among-maximum_overlap :
    (tolerance start end : ℕ) (turns : List SpeakerTurn)
    → (assign_among tolerance turns start end).method ≡ maximum_overlap
    → (t : SpeakerTurn) × IsMaximum start end turns t
      × ((assign_among tolerance turns start end).speaker_turn_id ≡ some t.id)
      × ((assign_among tolerance turns start end).speaker_cluster_id ≡ some t.speaker_cluster_id)
      × ((assign_among tolerance turns start end).confidence_basis_points
          ≡ some (overlap_of start end t * 10000 / (end - start)))
unfolding assign_among conclude
assign_among-maximum_overlap tolerance start end turns e =
    let (best, found) = conclude-maximum_overlap start end _ _ e in
    let is = best_overlap_is start end turns best found in
    (
      best.turn,
      record {
        listed = is.2;
        positive = ground arith;
        greatest =
            All-map (λ u h. ground arith) turns (best_overlap_max start end turns best found);
      },
      rw found,
      rw found,
      rw (found, ← is.0),
    )

-- The turn ended more than the tolerance before the unit, or starts more than it after.
abbrev pub IsFar : ℕ → ℕ → ℕ → SpeakerTurn → Type 0
IsFar tolerance start end t =
    (t.end_time_us + tolerance < start) ⊎ (end + tolerance < t.start_time_us)

conclude-unresolved :
    (start end : ℕ) (best : Option Overlap) (near : Option Near)
    → (conclude start end best near).method ≡ unresolved
    → (best ≡ none) × (near ≡ none)
unfolding conclude
conclude-unresolved start end (some o) near e = cc e
conclude-unresolved start end none (some n) e = cc e
conclude-unresolved start end none none e = (refl, refl)

-- A non-empty turn that does not overlap the unit ended by its start or starts from its end on.
apart :
    (start end : ℕ) (t : SpeakerTurn)
    → t.start_time_us < t.end_time_us
    → start < end
    → overlap_of start end t ≡ 0
    → (ends_by start t ≡ true) ⊎ (starts_from end t ≡ true)
unfolding overlap_us
apart start end t h k e = ground arith

module _ (tolerance start end : ℕ) (turns : List SpeakerTurn) where
  far_ended :
      (latest : Option SpeakerTurn)
      → tolerance < gap_after start latest (tolerance + 1)
      → ((latest ≡ none) × All (λ t. ends_by start t ≡ false) turns)
        ⊎ ((l : SpeakerTurn) × (latest ≡ some l) × EndedLast turns start l)
      → All (λ t. (ends_by start t ≡ false) ⊎ (t.end_time_us + tolerance < start)) turns
  far_ended latest g (inl (e, all)) = All-map (λ t h. inl h) turns all
  far_ended latest g (inr (l, e, (ended, listed, all))) = All-map (λ t h. ground arith) turns all

  far_to_come :
      (next : Option SpeakerTurn)
      → tolerance < gap_before end next (tolerance + 1)
      → ((next ≡ none) × All (λ t. starts_from end t ≡ false) turns)
        ⊎ ((u : SpeakerTurn) × (next ≡ some u) × ComesFirst turns end u)
      → All (λ t. (starts_from end t ≡ false) ⊎ (end + tolerance < t.start_time_us)) turns
  far_to_come next g (inl (e, all)) = All-map (λ t h. inl h) turns all
  far_to_come next g (inr (u, e, (comes, listed, all))) = All-map (λ t h. ground arith) turns all

  EndedBy-last_ended : EndedBy start (last_ended start turns)
  EndedBy-last_ended = elim (last_ended_cases turns start) [
    | inl (e, _) ↦ rw (e, EndedBy) tt
    | inr (l, e, last) ↦ rw (e, EndedBy) last.0
  ]

  ComesFrom-first : StartOrdered turns → ComesFrom end (head? (keep (starts_from end) turns))
  ComesFrom-first ordered = elim (first_to_come_cases turns end ordered) [
    | inl (e, _) ↦ rw (e, ComesFrom) tt
    | inr (u, e, first) ↦ rw (e, ComesFrom) first.0
  ]

  apart-All :
      NonEmpty turns
      → start < end
      → All (λ t. overlap_of start end t ≡ 0) turns
      → All (λ t. (ends_by start t ≡ true) ⊎ (starts_from end t ≡ true)) turns
  apart-All non_empty unit none_overlap =
      All-map2 (λ t h k. apart start end t h unit k) turns non_empty none_overlap

  -- A unit is left unresolved only if every turn, all being non-empty and ordered by their start, is
  -- farther from it than the tolerance.
  pub assign_among-unresolved :
      NonEmpty turns
      → StartOrdered turns
      → start < end
      → (assign_among tolerance turns start end).method ≡ unresolved
      → All (IsFar tolerance start end) turns
  unfolding assign_among
  assign_among-unresolved non_empty ordered unit e =
      let (no_overlap, no_near) = conclude-unresolved start end _ _ e in
      let (after, before) =
        nearest-none tolerance start end _ _ EndedBy-last_ended (ComesFrom-first ordered) no_near in
      let sides = apart-All non_empty unit (best_overlap-none start end turns no_overlap) in
      let ended = far_ended _ after (last_ended_cases turns start) in
      let coming = far_to_come _ before (first_to_come_cases turns end ordered) in
      All-map2 (λ t h k. far_side t h k) turns (All-map2 (λ t h k. (h, k)) turns sides ended) coming
    where
      far_side :
          (t : SpeakerTurn)
          → ((ends_by start t ≡ true) ⊎ (starts_from end t ≡ true))
            × ((ends_by start t ≡ false) ⊎ (t.end_time_us + tolerance < start))
          → (starts_from end t ≡ false) ⊎ (end + tolerance < t.start_time_us)
          → IsFar tolerance start end t
      far_side t (s, h) k = ground arith
