-- ===== src/Timeline/Materialize/Counts.antt =====
-- What the characters count: the dialogue segments that name them, and the time those take.
use mathlib.Core.List.{foldl}
use voice_verse_ai.Common.{
  ℕ, ◌+◌, ◌≡◌, refl, ◌∙◌, inl, inr, String, Bool, true, false, Option, none, some, List, [], ◌∷◌,
  ◌++◌, length, arith, str_eq, eq_iff, if◌then◌else◌, Bool-cases, Option-cases,
}
use voice_verse_ai.Common.Dict.{get, set, get-set}
use voice_verse_ai.Timeline.Types.{
  TranscriptSegment, AssignedUnit, DialogueSegment, MaterializedCharacter,
}
use voice_verse_ai.Timeline.Overlap.{has_overlap}
use voice_verse_ai.Timeline.Group.{units_for_segment, group_assigned_units}
use voice_verse_ai.Timeline.Materialize.{
  Progress, character_of, count_segment, credit, dialogue_segment_of, group_cluster, group_start,
  group_end, emit_group, emit_segment, assign_units,
}

abbrev pub Characters : Type 0
Characters = List (String × MaterializedCharacter)

-- A measure of the characters, added up.
unfoldable pub total_of : (MaterializedCharacter → ℕ) → Characters → ℕ
total_of f [] = 0
total_of f ((k, c) ∷ m) = f c + total_of f m

-- Does the cluster name a character?
unfoldable pub names_character : Characters → Option String → Bool
unfolding character_of
names_character characters cluster = elim (character_of cluster characters) [
  | none ↦ false
  | some _ ↦ true
]

-- A measure of the dialogue segments that name a character, added up.
unfoldable pub credited_of : (DialogueSegment → ℕ) → Characters → List DialogueSegment → ℕ
credited_of weight characters [] = 0
credited_of weight characters (d ∷ ds) =
    (if names_character characters d.speaker_cluster_id then weight d else 0)
    + credited_of weight characters ds

total_of-set :
    (f : MaterializedCharacter → ℕ) (k : String) (c d : MaterializedCharacter) (m : Characters)
    → get k m ≡ some c
    → total_of f (set k d m) + f c ≡ total_of f m + f d
unfolding total_of get set
total_of-set f k c d [] e = cc e
total_of-set f k c d ((j, b) ∷ m) e = elim (Bool-cases (str_eq j k)) [
  | inl h ↦ ground arith
  | inr h ↦ ground (arith, total_of-set f k c d m)
]

module _ (start end : ℕ) (group : List AssignedUnit) (m : Characters) where
  names_character-credit :
      (cluster other : Option String)
      → names_character (credit cluster start end group m) other ≡ names_character m other
  unfolding names_character credit
  names_character-credit none other = refl
  names_character-credit (some id) none = refl
  names_character-credit (some id) (some k) = elim (Option-cases (get id m)) [
    | inl g ↦ ground arith
    | inr (c, g) ↦ ground (arith, eq_iff id k, get-set id k (count_segment start end group c) m)
  ]

  total_of-credit :
      (f : MaterializedCharacter → ℕ) (w : ℕ) (cluster : Option String)
      → ((c : MaterializedCharacter) → f (count_segment start end group c) ≡ f c + w)
      → total_of f (credit cluster start end group m)
        ≡ total_of f m + (if names_character m cluster then w else 0)
  unfolding names_character credit
  total_of-credit f w none h = omega arith
  total_of-credit f w (some id) h = elim (Option-cases (get id m)) [
    | inl g ↦ ground arith
    | inr (c, g) ↦ ground (arith, h c, total_of-set f id c (count_segment start end group c) m g)
  ]

credited_of-append :
    (weight : DialogueSegment → ℕ) (m : Characters) (ds : List DialogueSegment)
    (d : DialogueSegment)
    → credited_of weight m (ds ++ d ∷ [])
      ≡ credited_of weight m ds + (if names_character m d.speaker_cluster_id then weight d else 0)
unfolding credited_of
credited_of-append weight m [] d = omega arith
credited_of-append weight m (e ∷ ds) d = omega (arith, credited_of-append weight m ds d)

-- A measure of a character that a segment raises by its weight.
module _ (f : MaterializedCharacter → ℕ) (weight : DialogueSegment → ℕ) (initial : Characters)
    (raises : (segment : TranscriptSegment) (g : List AssignedUnit) (b : Bool) (n : ℕ)
        (c : MaterializedCharacter)
      → f (count_segment (group_start segment g) (group_end segment g) g c)
        ≡ f c + weight (dialogue_segment_of segment g b n)) where
  -- The characters have counted the segments so far, and are named by the same clusters as ever.
  pub record IsCounted (progress : Progress) : Type 0 where
    pub counted :
        total_of f progress.character_by_cluster
        ≡ total_of f initial + credited_of weight initial progress.dialogue_segments
    pub named :
        (cluster : Option String)
        → names_character progress.character_by_cluster cluster ≡ names_character initial cluster

  emit_group-IsCounted :
      (segment : TranscriptSegment) (progress : Progress) (g : List AssignedUnit)
      → IsCounted progress
      → IsCounted (emit_group segment progress g)
  unfolding emit_group dialogue_segment_of
  emit_group-IsCounted segment progress g h = record {
    counted =
        let number = length progress.dialogue_segments in
        let mark =
          (has_overlap (group_start segment g) (group_end segment g) progress.overlap_cursor).1 in
        let pushed = dialogue_segment_of segment g mark number in
        ground (
          arith,
          total_of-credit (group_start segment g) (group_end segment g) g
              progress.character_by_cluster f (weight pushed) (group_cluster g)
              (raises segment g mark number),
          credited_of-append weight initial progress.dialogue_segments pushed,
          h.named (group_cluster g),
          h.counted,
        );
    named = λ cluster.
        names_character-credit (group_start segment g) (group_end segment g) g
          progress.character_by_cluster (group_cluster g) cluster
        ∙ h.named cluster;
  }

  emit_groups-IsCounted :
      (segment : TranscriptSegment) (groups : List (List AssignedUnit)) (progress : Progress)
      → IsCounted progress
      → IsCounted (foldl (emit_group segment) progress groups)
  emit_groups-IsCounted segment [] progress h = h
  emit_groups-IsCounted segment (g ∷ gs) progress h =
      emit_groups-IsCounted segment gs (emit_group segment progress g)
        (emit_group-IsCounted segment progress g h)

  pub emit_segments-IsCounted :
      (tolerance : ℕ) (segments : List TranscriptSegment) (progress : Progress)
      → IsCounted progress
      → IsCounted (foldl (emit_segment tolerance) progress segments)
  unfolding emit_segment
  emit_segments-IsCounted tolerance [] progress h = h
  emit_segments-IsCounted tolerance (s ∷ ss) progress h =
      emit_segments-IsCounted tolerance ss (emit_segment tolerance progress s) (
        let assigned = assign_units tolerance progress.assignment_cursor (units_for_segment s) in
        emit_groups-IsCounted s (group_assigned_units assigned.1)
          (record progress { assignment_cursor = assigned.0 })
          (record { counted = h.counted; named = h.named }))
