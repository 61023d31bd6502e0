-- ===== src/Scan/Recovery.antt =====
-- `recoverExpiredAttempts` of the scan worker: the replay of lost commands, and the end of leases that
-- were recovered as often as allowed. Rows that another transaction has locked are skipped: `is_locked`.
use Prim.Native.String as Str
use Prim.Native.String.{String}
use mathlib.Core.List.{◌++◌}
use voice_verse_ai.Common.{
  ℕ, ◌+◌, ◌-◌, ◌*◌, Bool, true, false, not, ◌&&◌, ◌||◌, ltb, leb, ◌==◌, if◌then◌else◌, str_eq,
  Option, none, some, List, [], ◌∷◌, keep, length,
}
use voice_verse_ai.Common.Take.{take}
use voice_verse_ai.Common.Sort.{Comparator, or_else, sort_by}
use voice_verse_ai.Timeline.Compare.{compare_big_int}
use voice_verse_ai.Ingest.Tables.{find, update}
use voice_verse_ai.Scan.Rows.{
  queued, running, SecurityStatus, video_pending, video_scanning, video_error, Attempt, Video,
  max_scan_lease_recoveries, status_eq, is_before, update_many, timeout_where, timeout_data,
}
use voice_verse_ai.Scan.Job.{Store}

pub data EventStatus : Type 0 where
  event_pending event_publishing event_published event_failed : EventStatus

pub record Event : Type 0 where
  pub id : String
  pub event_type : String
  pub attempt_id : String
  pub status : EventStatus
  pub available_at : ℕ
  pub published_at : Option ℕ
  pub lease_id : Option String
  pub leased_until : Option ℕ
  pub last_error : Option String

unfoldable pub is_published : EventStatus → Bool
is_published event_published = true
is_published _ = false

unfoldable pub is_pending_video : SecurityStatus → Bool
is_pending_video video_pending = true
is_pending_video _ = false

unfoldable pub is_scanning_video : SecurityStatus → Bool
is_scanning_video video_scanning = true
is_scanning_video _ = false

-- The inner condition of the query, on the joined rows.
unfoldable pub is_lost : ℕ → Attempt → Video → Bool
unfolding status_eq is_before is_pending_video is_scanning_video
is_lost now a v =
    v.is_uploaded
    && ((status_eq a.status queued && is_pending_video v.security_status)
        || (status_eq a.status running
            && is_before a.leased_until now
            && ltb a.recovery_count max_scan_lease_recoveries
            && is_scanning_video v.security_status))

-- The inner joins, by the ids.
unfoldable pub joins_lost : ℕ → Store → Event → Bool
unfolding find is_lost
joins_lost now store event =
    elim (find (λ (a : Attempt). str_eq a.id event.attempt_id) store.attempts) [
      | none ↦ false
      | some a ↦ elim (find (λ (v : Video). str_eq v.id a.video_id) store.videos) [
        | none ↦ false
        | some v ↦ is_lost now a v
      ]
    ]

unfoldable pub is_replayable : ℕ → ℕ → Store → Event → Bool
unfolding is_published is_before joins_lost
is_replayable now stale_before store event =
    is_published event.status
    && str_eq event.event_type "media.scan.requested"
    && is_before event.published_at stale_before
    && joins_lost now store event

unfoldable pub time_or_zero : Option ℕ → ℕ
time_or_zero none = 0
time_or_zero (some t) = t

-- `ORDER BY event.published_at, event.id`; the candidates all have a time.
unfoldable pub compare_events : Comparator Event
unfolding compare_big_int time_or_zero or_else
compare_events a b =
    or_else (compare_big_int (time_or_zero a.published_at) (time_or_zero b.published_at))
      (Str.compare a.id b.id)

unfoldable pub replayed_event : ℕ → Event → Event
replayed_event now e = record e {
  status = event_pending;
  available_at = now;
  last_error = none;
  lease_id = none;
  leased_until = none;
  published_at = none;
}

-- The candidates of the query.
unfoldable pub replay_candidates : ℕ → ℕ → ℕ → (String → Bool) → Store → List Event → List Event
unfolding sort_by compare_events is_replayable take
replay_candidates limit now stale_before is_locked store events = take limit (
    keep (λ (e : Event). not (is_locked e.id))
      (sort_by compare_events (keep (is_replayable now stale_before store) events)))

unfoldable pub is_among : List Event → Event → Bool
is_among [] e = false
is_among (c ∷ cs) e = str_eq c.id e.id || is_among cs e

-- The replay: the outbox after it, and how many events were replayed.
unfoldable pub replay_lost : ℕ → ℕ → ℕ → (String → Bool) → Store → List Event → List Event × ℕ
unfolding replay_candidates update is_among replayed_event
replay_lost limit now stale_before is_locked store events =
    let candidates = replay_candidates limit now stale_before is_locked store events in
    (update (is_among candidates) (replayed_event now) events, length candidates)

-- The attempts that the second query finds, with their videos.
unfoldable pub is_exhausted : ℕ → Store → Attempt → Bool
unfolding status_eq is_before find is_scanning_video
is_exhausted now store a =
    is_before a.leased_until now
    && leb max_scan_lease_recoveries a.recovery_count
    && status_eq a.status running
    && elim (find (λ (v : Video). str_eq v.id a.video_id) store.videos) [
      | none ↦ false
      | some v ↦ v.is_uploaded && is_scanning_video v.security_status
    ]

unfoldable pub compare_leases : Comparator Attempt
unfolding compare_big_int time_or_zero or_else
compare_leases a b =
    or_else (compare_big_int (time_or_zero a.leased_until) (time_or_zero b.leased_until))
      (Str.compare a.id b.id)

-- The transaction for one attempt that was read with its token.
unfoldable pub time_out : ℕ → ℕ → Attempt → String → Store → Store × ℕ
unfolding update_many timeout_where timeout_data update is_scanning_video
time_out now completed_at read token store =
    let updated =
      update_many (timeout_where read.id token now) (timeout_data completed_at) store.attempts in
    if updated.1 == 1
    then (
      record store {
        attempts = updated.0;
        videos =
            update (λ v. str_eq v.id read.video_id && is_scanning_video v.security_status)
              (λ v. record v { security_status = video_error }) store.videos;
        audit = store.audit ++ ("media.scan.failed", read.video_id) ∷ [];
      },
      1,
    )
    else (record store { attempts = updated.0 }, 0)

-- The loop over the attempts that were read; those without a token are passed over.
unfoldable pub time_out_all : ℕ → ℕ → List Attempt → Store → Store × ℕ
unfolding time_out
time_out_all now completed_at [] store = (store, 0)
time_out_all now completed_at (read ∷ reads) store = elim read.lease_token [
  | none ↦ time_out_all now completed_at reads store
  | some token ↦
      let done = time_out now completed_at read token store in
      let rest = time_out_all now completed_at reads done.0 in (rest.0, done.1 + rest.1)
]

-- The attempts that the second query returns.
unfoldable pub exhausted_attempts : ℕ → ℕ → Store → List Attempt
unfolding sort_by compare_leases is_exhausted take
exhausted_attempts limit now store =
    take limit (sort_by compare_leases (keep (is_exhausted now store) store.attempts))

unfoldable pub recover_expired_attempts :
    ℕ → ℕ → ℕ → ℕ → (String → Bool) → Store → List Event → Store × List Event × ℕ
unfolding replay_lost exhausted_attempts time_out_all
recover_expired_attempts limit now completed_at delivery_recovery_seconds is_locked store events =
    let replayed =
      replay_lost limit now (now - delivery_recovery_seconds * 1000) is_locked store events in
    let timed = time_out_all now completed_at (exhausted_attempts limit now store) store in
    (timed.0, replayed.0, replayed.1 + timed.1)
