-- ===== src/Timeline/Check/Sound.antt =====
-- `assertInput` accepts exactly the inputs that are well formed.
use voice_verse_ai.Common.{
  ℕ, suc, ◌+◌, ◌≤◌, ◌<◌, String, ◌≡◌, refl, ap, ◌↔◌, true, false, ◌&&◌, Option, none, some, List,
  [], ◌∷◌, ◌++◌, map, length, length-append, All, eq_iff, ok, arith,
}
use voice_verse_ai.Common.Dict.{has, set_of}
use voice_verse_ai.Common.Sort.{sort_by}
use voice_verse_ai.Timeline.Types.{
  Word, TranscriptSegment, SpeakerCluster, SpeakerTurn, MaterializationInput,
}
use voice_verse_ai.Timeline.Compare.{compare_segments, compare_words}
use voice_verse_ai.Timeline.Check.{
  Checked, deterministic_timeline_resolver, assert_interval, assert_basis_points, assert_turns,
  starts_before_previous, assert_words, assert_segments, some_without_turns, assert_input,
}

abbrev pub InBasisPoints : Option ℕ → Type 0
InBasisPoints none = Unit
InBasisPoints (some value) = value ≤ 10000

abbrev pub NotBefore : Option ℕ → ℕ → Type 0
NotBefore none start = Unit
NotBefore (some end) start = end ≤ start

pub record IsTurn (cluster_ids : List String) (turn : SpeakerTurn) : Type 0 where
  pub interval : turn.start_time_us < turn.end_time_us
  pub cluster : has turn.speaker_cluster_id cluster_ids ≡ true
  pub classified : (turn.is_exclusive && turn.is_overlapping) ≡ false

pub record IsWord (segment : TranscriptSegment) (previous : Option ℕ) (word : Word) : Type 0 where
  pub interval : word.start_time_us < word.end_time_us
  pub confidence : InBasisPoints word.confidence_basis_points
  pub segment_id : word.transcript_segment_id ≡ segment.id
  pub from_start : segment.start_time_us ≤ word.start_time_us
  pub to_end : word.end_time_us ≤ segment.end_time_us
  pub order : NotBefore previous word.start_time_us

-- Words of the segment, one after the other.
abbrev pub ValidWords : TranscriptSegment → Option ℕ → List Word → Type 0
ValidWords segment previous [] = Unit
ValidWords segment previous (word ∷ words) =
    IsWord segment previous word × ValidWords segment (some word.end_time_us) words

pub record IsSegment (previous : Option ℕ) (segment : TranscriptSegment) : Type 0 where
  pub interval : segment.start_time_us < segment.end_time_us
  pub confidence : InBasisPoints segment.confidence_basis_points
  pub order : NotBefore previous segment.start_time_us
  pub words : ValidWords segment none (sort_by compare_words segment.words)

-- Segments, one after the other.
abbrev pub ValidSegments : Option ℕ → List TranscriptSegment → Type 0
ValidSegments previous [] = Unit
ValidSegments previous (segment ∷ segments) =
    IsSegment previous segment × ValidSegments (some segment.end_time_us) segments

-- No key is among those seen before it.
abbrev pub AllFresh : List String → List String → Type 0
AllFresh seen [] = Unit
AllFresh seen (k ∷ ks) = (has k seen ≡ false) × AllFresh (seen ++ k ∷ []) ks

abbrev pub cluster_ids_of : MaterializationInput → List String
cluster_ids_of input = map (λ (c : SpeakerCluster). c.id) input.speaker_clusters

abbrev pub turn_cluster_ids_of : MaterializationInput → List String
turn_cluster_ids_of input = map (λ (t : SpeakerTurn). t.speaker_cluster_id) input.speaker_turns

pub record IsWellFormed (input : MaterializationInput) : Type 0 where
  pub resolver : input.resolver ≡ deterministic_timeline_resolver
  pub distinct : AllFresh [] (cluster_ids_of input)
  pub turns : All (IsTurn (set_of [] (cluster_ids_of input))) input.speaker_turns
  pub spoken :
      All (λ c. has c.id (set_of [] (turn_cluster_ids_of input)) ≡ true) input.speaker_clusters
  pub segments : ValidSegments none (sort_by compare_segments input.transcript_segments)

abbrev Accepted : Checked → Type 0
Accepted r = r ≡ ok tt

basis_points-Accepted : (c : Option ℕ) → Accepted (assert_basis_points c) ↔ InBasisPoints c
unfolding assert_basis_points
basis_points-Accepted none = (λ h. tt, λ h. refl)
basis_points-Accepted (some v) = ground arith

starts_before_previous_iff :
    (previous : Option ℕ) (start : ℕ)
    → (starts_before_previous start previous ≡ false) ↔ NotBefore previous start
unfolding starts_before_previous
starts_before_previous_iff none start = (λ h. tt, λ h. refl)
starts_before_previous_iff (some end) start = ground arith

assert_turns_iff :
    (ids : List String) (turns : List SpeakerTurn)
    → Accepted (assert_turns ids turns) ↔ All (IsTurn ids) turns
unfolding assert_turns assert_interval
assert_turns_iff ids [] = (λ h. tt, λ h. refl)
assert_turns_iff ids (turn ∷ turns) = (
  λ h. (
    record { interval = ground arith; cluster = ground arith; classified = ground arith },
    (assert_turns_iff ids turns).0 (ground arith),
  ),
  λ (t, ts). ground (arith, t.interval, t.cluster, t.classified, (assert_turns_iff ids turns).1 ts),
)

assert_words_iff :
    (segment : TranscriptSegment) (previous : Option ℕ) (words : List Word)
    → Accepted (assert_words segment previous words) ↔ ValidWords segment previous words
unfolding assert_words assert_interval
assert_words_iff segment previous [] = (λ h. tt, λ h. refl)
assert_words_iff segment previous (word ∷ words) = (
  λ h. (
    record {
      interval = ground arith;
      confidence = (basis_points-Accepted word.confidence_basis_points).0 (ground arith);
      segment_id = (eq_iff word.transcript_segment_id segment.id).0 (ground arith);
      from_start = ground arith;
      to_end = ground arith;
      order = (starts_before_previous_iff previous word.start_time_us).0 (ground arith);
    },
    (assert_words_iff segment (some word.end_time_us) words).0 (ground arith),
  ),
  λ (w, ws). ground (
    arith,
    w.interval,
    w.from_start,
    w.to_end,
    (basis_points-Accepted word.confidence_basis_points).1 w.confidence,
    (eq_iff word.transcript_segment_id segment.id).1 w.segment_id,
    (starts_before_previous_iff previous word.start_time_us).1 w.order,
    (assert_words_iff segment (some word.end_time_us) words).1 ws,
  ),
)

assert_segments_iff :
    (previous : Option ℕ) (segments : List TranscriptSegment)
    → Accepted (assert_segments previous segments) ↔ ValidSegments previous segments
unfolding assert_segments assert_interval
assert_segments_iff previous [] = (λ h. tt, λ h. refl)
assert_segments_iff previous (segment ∷ segments) = (
  λ h. (
    record {
      interval = ground arith;
      confidence = (basis_points-Accepted segment.confidence_basis_points).0 (ground arith);
      order = (starts_before_previous_iff previous segment.start_time_us).0 (ground arith);
      words =
          (assert_words_iff segment none (sort_by compare_words segment.words)).0 (ground arith);
    },
    (assert_segments_iff (some segment.end_time_us) segments).0 (ground arith),
  ),
  λ (s, ss). ground (
    arith,
    s.interval,
    (basis_points-Accepted segment.confidence_basis_points).1 s.confidence,
    (starts_before_previous_iff previous segment.start_time_us).1 s.order,
    (assert_words_iff segment none (sort_by compare_words segment.words)).1 s.words,
    (assert_segments_iff (some segment.end_time_us) segments).1 ss,
  ),
)

some_without_turns_iff :
    (with_turns : List String) (clusters : List SpeakerCluster)
    → (some_without_turns with_turns clusters ≡ false)
      ↔ All (λ c. has c.id with_turns ≡ true) clusters
unfolding some_without_turns
some_without_turns_iff with_turns [] = (λ h. tt, λ h. refl)
some_without_turns_iff with_turns (c ∷ cs) = (
  λ h. (ground arith, (some_without_turns_iff with_turns cs).0 (ground arith)),
  λ (h, hs). ground (arith, h, (some_without_turns_iff with_turns cs).1 hs),
)

-- A `Set` of keys has as many elements as keys only if no key is repeated.
length-set_of-le : (seen ks : List String) → length (set_of seen ks) ≤ length seen + length ks
unfolding set_of
length-set_of-le seen [] = omega arith
length-set_of-le seen (k ∷ ks) = ground (
  arith,
  length-set_of-le seen ks,
  length-set_of-le (seen ++ k ∷ []) ks,
  length-append seen (k ∷ []),
)

length-set_of_iff :
    (seen ks : List String) → (length (set_of seen ks) ≡ length seen + length ks) ↔ AllFresh seen ks
unfolding set_of
length-set_of_iff seen [] = (λ h. tt, λ h. omega arith)
length-set_of_iff seen (k ∷ ks) = (
  λ h. (
    ground (arith, length-set_of-le seen ks),
    (length-set_of_iff (seen ++ k ∷ []) ks).0
        (ground (arith, length-set_of-le seen ks, length-append seen (k ∷ []))),
  ),
  λ (h, hs).
      ground (arith, h, (length-set_of_iff (seen ++ k ∷ []) ks).1 hs, length-append seen (k ∷ [])),
)

length_cluster_ids :
    (clusters : List SpeakerCluster)
    → length (map (λ (c : SpeakerCluster). c.id) clusters) ≡ length clusters
length_cluster_ids [] = refl
length_cluster_ids (c ∷ cs) = ap suc (length_cluster_ids cs)

-- `assertInput` accepts an input exactly when it names the resolver, its cluster ids are distinct,
-- its turns are non-empty, belong to clusters and are not both exclusive and overlapping, every
-- cluster has a turn, and its segments and their words, in order of their intervals, are non-empty,
-- with confidences in range, without overlap, the words inside their segment and naming it.
pub assert_input_iff :
    (input : MaterializationInput) → (assert_input input ≡ ok tt) ↔ IsWellFormed input
unfolding assert_input
assert_input_iff input = (
  λ h. record {
    resolver = (eq_iff input.resolver deterministic_timeline_resolver).0 (ground arith);
    distinct =
        (length-set_of_iff [] (cluster_ids_of input)).0
          (ground (arith, length_cluster_ids input.speaker_clusters));
    turns =
        (assert_turns_iff (set_of [] (cluster_ids_of input)) input.speaker_turns).0 (ground arith);
    spoken =
        (some_without_turns_iff (set_of [] (turn_cluster_ids_of input)) input.speaker_clusters).0
          (ground arith);
    segments =
        (assert_segments_iff none (sort_by compare_segments input.transcript_segments)).0
          (ground arith);
  },
  λ w. ground (
    arith,
    (eq_iff input.resolver deterministic_timeline_resolver).1 w.resolver,
    (length-set_of_iff [] (cluster_ids_of input)).1 w.distinct,
    length_cluster_ids input.speaker_clusters,
    (assert_turns_iff (set_of [] (cluster_ids_of input)) input.speaker_turns).1 w.turns,
    (some_without_turns_iff (set_of [] (turn_cluster_ids_of input)) input.speaker_clusters).1
        w.spoken,
    (assert_segments_iff none (sort_by compare_segments input.transcript_segments)).1 w.segments,
  ),
)
