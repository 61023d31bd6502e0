-- ===== src/Outbox.antt =====
-- The outbox relay, `apps/api/src/modules/workers/application/outbox-relay.service.ts`. Times are
-- milliseconds; rows that another transaction has locked are skipped: `is_locked`. The rows that the
-- lease returns come in the order of the table: the query states none.
use voice_verse_ai.Common.{
  ℕ, zero, suc, ◌+◌, ◌*◌, ◌^◌, min, Bool, true, false, not, ◌&&◌, ◌||◌, ltb, leb, ◌==◌,
  if◌then◌else◌, text_eq, str_eq, String, Option, none, some, List, [], ◌∷◌, keep, length, Result,
  ok, err,
}
use voice_verse_ai.Common.Sort.{Comparator, or_else, sort_by}
use voice_verse_ai.Timeline.Compare.{compare_big_int}
use voice_verse_ai.Ingest.Tables.{update}
use voice_verse_ai.Scan.Rows.{is_before}
use voice_verse_ai.Scan.Job.{slice}
use voice_verse_ai.Common.Take.{take}
pub mod Retry
pub mod Exclusive
mod Tests

pub data EventStatus : Type 0 where
  pending publishing published failed : EventStatus

pub record Event : Type 0 where
  pub id : String
  pub status : EventStatus
  pub available_at : ℕ
  pub occurred_at : ℕ
  pub attempt_count : ℕ
  pub lease_id : Option String
  pub leased_until : Option ℕ
  pub published_at : Option ℕ
  pub last_error : Option String

unfoldable pub is_waiting : EventStatus → Bool
is_waiting pending = true
is_waiting failed = true
is_waiting _ = false

unfoldable pub is_publishing : EventStatus → Bool
is_publishing publishing = true
is_publishing _ = false

-- The condition of the candidates.
unfoldable pub is_candidate : ℕ → Event → Bool
unfolding is_waiting is_publishing is_before
is_candidate now e =
    (is_waiting e.status && leb e.available_at now)
    || (is_publishing e.status && is_before e.leased_until now)

unfoldable pub compare_candidates : Comparator Event
unfolding compare_big_int or_else
compare_candidates a b =
    or_else (compare_big_int a.available_at b.available_at)
      (compare_big_int a.occurred_at b.occurred_at)

unfoldable pub candidates : ℕ → ℕ → (String → Bool) → List Event → List Event
unfolding sort_by compare_candidates is_candidate take
candidates limit now is_locked events = take limit (
    keep (λ (e : Event). not (is_locked e.id))
      (sort_by compare_candidates (keep (is_candidate now) events)))

unfoldable pub has_id_among : List Event → Event → Bool
has_id_among [] e = false
has_id_among (c ∷ cs) e = str_eq c.id e.id || has_id_among cs e

unfoldable pub leased : String → ℕ → Event → Event
leased lease_id until e = record e {
  status = publishing;
  lease_id = some lease_id;
  leased_until = some until;
}

-- The query: the table after it, and the rows that it returns.
unfoldable pub lease_batch :
    ℕ → ℕ → ℕ → String → (String → Bool) → List Event → List Event × List Event
unfolding candidates update has_id_among leased
lease_batch limit now lease_seconds lease_id is_locked events =
    let chosen = candidates limit now is_locked events in
    let until = now + lease_seconds * 1000 in
    let after = update (has_id_among chosen) (leased lease_id until) events in
    (after, keep (has_id_among chosen) after)

-- The `where` of both updates.
unfoldable pub is_held : String → String → Event → Bool
unfolding text_eq is_publishing
is_held id lease_id e =
    str_eq e.id id && text_eq e.lease_id (some lease_id) && is_publishing e.status

unfoldable pub mark_published : ℕ → Event → Event
mark_published now e = record e {
  last_error = none;
  lease_id = none;
  leased_until = none;
  published_at = some now;
  status = published;
}

-- `delaySeconds`
unfoldable pub delay_seconds : ℕ → ℕ
delay_seconds attempt = min 300 (5 * 2 ^ min attempt 6)

unfoldable pub mark_failed : ℕ → ℕ → String → Event → Event
unfolding delay_seconds slice
mark_failed now attempt error_code e = record e {
  attempt_count = attempt;
  available_at = now + delay_seconds attempt * 1000;
  last_error = some (slice 200 error_code);
  lease_id = none;
  leased_until = none;
  status = failed;
}

-- The body of the loop, with the publisher's answer: an error's name where it fails.
unfoldable pub relay_event :
    ℕ → String → (Event → Result String (Unit {0})) → List Event → Event → List Event
unfolding update is_held mark_published mark_failed
relay_event now lease_id publish events event = elim (publish event) [
  | ok _ ↦ update (is_held event.id lease_id) (mark_published now) events
  | err name ↦
      update (is_held event.id lease_id) (mark_failed now (event.attempt_count + 1) name) events
]

unfoldable pub relay_events :
    ℕ → String → (Event → Result String (Unit {0})) → List Event → List Event → List Event
unfolding relay_event
relay_events now lease_id publish [] events = events
relay_events now lease_id publish (event ∷ others) events =
    relay_events now lease_id publish others (relay_event now lease_id publish events event)

-- `meanwhile` is what others write while the batch is leased.
unfoldable pub relay_batch :
    ℕ
    → ℕ
    → ℕ
    → ℕ
    → String
    → (String → Bool)
    → (Event → Result String (Unit {0}))
    → (List Event → List Event)
    → List Event
    → List Event × ℕ
unfolding lease_batch relay_events
relay_batch limit now later lease_seconds lease_id is_locked publish meanwhile events =
    let batch = lease_batch limit now lease_seconds lease_id is_locked events in
    (relay_events later lease_id publish batch.1 (meanwhile batch.0), length batch.1)
