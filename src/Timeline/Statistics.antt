-- ===== src/Timeline/Statistics.antt =====
-- `clusterStatistics`, `canonicalClusterOrder` and the choice of character evidence of the timeline
-- materializer. `localeCompare` depends on the host's locale and is a parameter.
use mathlib.Core.List.{foldl}
use voice_verse_ai.Common.{
  ℕ, ◌+◌, ◌-◌, String, Bool, not, Option, none, some, List, [], ◌++◌, map, keep, ltb, compare,
  Ordering, if◌then◌else◌,
}
use voice_verse_ai.Common.Dict.{get, set, has, set_of}
use voice_verse_ai.Common.Sort.{Comparator, or_else, sort_by}
use voice_verse_ai.Timeline.Types.{SpeakerCluster, SpeakerTurn}
use voice_verse_ai.Timeline.Compare.{compare_big_int, compare_turns}

-- `m.get(k) ?? 0n`
unfoldable pub get_or_zero : String → List (String × ℕ) → ℕ
unfolding get
get_or_zero k m = elim (get k m) [ none ↦ 0 | some v ↦ v ]

pub record ClusterStatistics : Type 0 where
  pub duration_by_cluster : List (String × ℕ)
  pub first_appearance_by_cluster : List (String × ℕ)

-- Is a turn's start earlier than what is recorded, if anything is?
unfoldable pub is_earlier : ℕ → Option ℕ → Bool
is_earlier start none = Bool.true
is_earlier start (some first) = ltb start first

unfoldable pub add_turn : ClusterStatistics → SpeakerTurn → ClusterStatistics
unfolding get_or_zero get set is_earlier
add_turn statistics turn = record {
  duration_by_cluster =
      set turn.speaker_cluster_id
        (get_or_zero turn.speaker_cluster_id statistics.duration_by_cluster
          + (turn.end_time_us - turn.start_time_us))
        statistics.duration_by_cluster;
  first_appearance_by_cluster =
      if is_earlier turn.start_time_us
        (get turn.speaker_cluster_id statistics.first_appearance_by_cluster)
      then set turn.speaker_cluster_id turn.start_time_us statistics.first_appearance_by_cluster
      else statistics.first_appearance_by_cluster;
}

unfoldable pub cluster_statistics : List SpeakerTurn → ClusterStatistics
unfolding add_turn
cluster_statistics turns =
    foldl add_turn (record { duration_by_cluster = []; first_appearance_by_cluster = [] }) turns

unfoldable pub compare_clusters :
    (String → String → Ordering) → ClusterStatistics → Comparator SpeakerCluster
unfolding compare_big_int get_or_zero or_else
compare_clusters locale_compare statistics left right =
    or_else
      (compare_big_int (get_or_zero left.id statistics.first_appearance_by_cluster)
        (get_or_zero right.id statistics.first_appearance_by_cluster))
      (or_else
        (compare_big_int (get_or_zero right.id statistics.duration_by_cluster)
          (get_or_zero left.id statistics.duration_by_cluster))
        (or_else (compare left.ordinal right.ordinal) (locale_compare left.id right.id)))

unfoldable pub canonical_cluster_order :
    (String → String → Ordering) → List SpeakerCluster → ClusterStatistics → List SpeakerCluster
unfolding compare_clusters sort_by
canonical_cluster_order locale_compare clusters statistics =
    sort_by (compare_clusters locale_compare statistics) clusters

-- The exclusive and the regular turns, each ordered by interval.
unfoldable pub exclusive_turns_of : List SpeakerTurn → List SpeakerTurn
unfolding sort_by compare_turns
exclusive_turns_of turns = sort_by compare_turns (keep (λ turn. turn.is_exclusive) turns)

unfoldable pub regular_turns_of : List SpeakerTurn → List SpeakerTurn
unfolding sort_by compare_turns
regular_turns_of turns = sort_by compare_turns (keep (λ turn. not turn.is_exclusive) turns)

-- Exclusive turns, and regular turns of the clusters that have no exclusive turn.
unfoldable pub character_evidence_turns : List SpeakerTurn → List SpeakerTurn → List SpeakerTurn
unfolding sort_by compare_turns has set_of
character_evidence_turns exclusive_turns regular_turns =
    let with_exclusive_turns =
      set_of [] (map (λ (t : SpeakerTurn). t.speaker_cluster_id) exclusive_turns) in
    sort_by compare_turns (
      exclusive_turns
      ++ keep (λ turn. not (has turn.speaker_cluster_id with_exclusive_turns)) regular_turns)
