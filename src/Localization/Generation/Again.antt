-- ===== src/Localization/Generation/Again.antt =====
-- A request for a generation that is sent again with its key.
use text.Mathlib.TextPositions.{eq_refl}
use voice_verse_ai.Common.{
  ℕ, zero, suc, ◌≡◌, refl, sym, subst, ap, ◌∙◌, String, Bool, true, false, inl, inr, ◌⊎◌, Option,
  none, some, [], ◌∷◌, ◌++◌, Option-cases, Result, ok, err, ◌>>◌, >>=-eq-ok, throw_if, ok-injective,
  not,
}
use voice_verse_ai.Common.{if◌then◌else◌}
use voice_verse_ai.Localization.Types.{translation_disabled}
use voice_verse_ai.Ingest.Types.{AccessContext}
use voice_verse_ai.Ingest.Patterns.{matches_idempotency}
use voice_verse_ai.Ingest.Tables.{find}
use voice_verse_ai.Ingest.Rows.{find-append_new}
use voice_verse_ai.Ingest.Create.{is_some}
use voice_verse_ai.Localization.Types.{
  LocalizationTrack, Store, LocalizationError, unique_violation, translation_disabled,
  invalid_idempotency_key, translation_disabled,
}
use voice_verse_ai.Localization.Access.{assert_can_edit, assert_uuid, owned_track, scope_of}
use voice_verse_ai.Localization.Track.Create.{Recourse, retry, look_up, give_up, recourse_of}
use voice_verse_ai.Localization.Writes.{owned_track-eq, scope_of-track}
use voice_verse_ai.Localization.Generation.Snapshots.{assert_snapshot_size, configuration_snapshot}
use voice_verse_ai.Localization.Generation.Create.{
  TranslationGeneration, GenerationStore, GenerationEnv, GenerationResponse, GenerationAttempt,
  has_generation_key, has_generation_id, assert_generation_request_matches, replay_generation,
  to_generation_response, new_generation, snapshots_of, insert_generation, queue_generation,
  create_generation_transaction, run_generation_attempt, generation_attempts, create_generation_for,
  generation_checked, create_generation,
}

-- The row of the key is there, and gives the answer.
abbrev pub HasAnswer : GenerationStore → String → String → String → GenerationResponse → Type 0
HasAnswer tables track_id key scene_id answer =
    (g : TranslationGeneration) × (find (has_generation_key track_id key) tables.generations
      ≡ some g)
    × (replay_generation scene_id g ≡ ok answer)

Result-cases {ℓ κ} :
    {E : Type ℓ} {A : Type κ} (r : Result E A) → ((e : E) × (r ≡ err e)) ⊎ ((a : A) × (r ≡ ok a))
Result-cases (err e) = inl (e, refl)
Result-cases (ok a) = inr (a, refl)

Recourse-cases : (r : Recourse) → (r ≡ retry) ⊎ (r ≡ give_up) ⊎ (r ≡ look_up)
Recourse-cases retry = inl refl
Recourse-cases give_up = inr (inl refl)
Recourse-cases look_up = inr (inr refl)

owned_track-id :
    (context : AccessContext) (project_id track_id : String) (store : Store)
    {track : LocalizationTrack}
    → owned_track context project_id track_id store ≡ ok track
    → track.id ≡ track_id
owned_track-id context project_id track_id store h =
    (scope_of-track context project_id track_id store
      (owned_track-eq context project_id track_id store h)).1

insert_generation-HasAnswer :
    (env : GenerationEnv) (context : AccessContext) (generation : TranslationGeneration)
    (track_id key scene_id : String) (tables : GenerationStore) {after : GenerationStore}
    {answer : GenerationResponse}
    → find (has_generation_key track_id key) tables.generations ≡ none
    → has_generation_key track_id key generation ≡ true
    → replay_generation scene_id generation ≡ ok (to_generation_response generation)
    → insert_generation env context generation tables ≡ ok (after, answer)
    → HasAnswer after track_id key scene_id answer
unfolding insert_generation
insert_generation-HasAnswer env context generation track_id key scene_id tables {after} {answer}
      fresh of replays h =
    let (_, _, h1) =
      >>=-eq-ok
        (throw_if (is_some (find (has_generation_id generation.id) tables.generations))
          unique_violation)
        _ h in
    let rows : tables.generations ++ generation ∷ [] ≡ after.generations =
      ap (λ (p : GenerationStore × GenerationResponse). p.0.generations) (ok-injective h1) in
    let same : to_generation_response generation ≡ answer =
      ap (λ (p : GenerationStore × GenerationResponse). p.1) (ok-injective h1) in
    (
      generation,
      subst (λ gs. find (has_generation_key track_id key) gs ≡ some generation) rows
          (find-append_new (has_generation_key track_id key) tables.generations generation fresh
            of),
      replays ∙ ap ok same,
    )

replay-new :
    (scene_id : String) (generation : TranslationGeneration)
    → generation.scene_id ≡ scene_id
    → replay_generation scene_id generation ≡ ok (to_generation_response generation)
unfolding replay_generation assert_generation_request_matches
replay-new scene_id generation same = rw (same, eq_refl scene_id) refl

queue_generation-HasAnswer :
    (env : GenerationEnv) (context : AccessContext) (project_id track_id key scene_id : String)
    (tables : GenerationStore) {after : GenerationStore} {answer : GenerationResponse}
    → find (has_generation_key track_id key) tables.generations ≡ none
    → queue_generation env context project_id track_id key scene_id tables ≡ ok (after, answer)
    → HasAnswer after track_id key scene_id answer
unfolding queue_generation new_generation
queue_generation-HasAnswer env context project_id track_id key scene_id tables fresh h =
    let (track, owned, h1) = >>=-eq-ok (owned_track context project_id track_id tables.store) _ h in
    let scope = scope_of context project_id track in
    let (snapshots, _, h2) = >>=-eq-ok (snapshots_of env scope track scene_id tables.store) _ h1 in
    let (_, _, h3) =
      >>=-eq-ok (assert_snapshot_size env.quote 60000 (configuration_snapshot env.config)) _ h2 in
    let (_, _, h4) = >>=-eq-ok (assert_snapshot_size env.quote 1000000 snapshots.0) _ h3 in
    let (_, _, h5) = >>=-eq-ok (assert_snapshot_size env.quote 250000 snapshots.1) _ h4 in
    let generation =
      new_generation env context scope track.id scene_id key snapshots.0 snapshots.1 in
    let id : track.id ≡ track_id = owned_track-id context project_id track_id tables.store owned in
    insert_generation-HasAnswer env context generation track_id key scene_id tables fresh
      (rw (id, eq_refl track_id, eq_refl key) refl) (replay-new scene_id generation refl) h5

create_generation_transaction-HasAnswer :
    (env : GenerationEnv) (context : AccessContext) (project_id track_id key scene_id : String)
    (tables : GenerationStore) {after : GenerationStore} {answer : GenerationResponse}
    → create_generation_transaction env context project_id track_id key scene_id tables
      ≡ ok (after, answer)
    → HasAnswer after track_id key scene_id answer
unfolding create_generation_transaction
create_generation_transaction-HasAnswer env context project_id track_id key scene_id tables {after}
      {answer} h =
    elim (Option-cases (find (has_generation_key track_id key) tables.generations)) [
      | inl e ↦
          queue_generation-HasAnswer env context project_id track_id key scene_id tables e
            (rw (e, create_generation_transaction) at h)
      | inr (existing, e) ↦
          let (found, replays, done) =
            >>=-eq-ok (replay_generation scene_id existing) _
              (rw (e, create_generation_transaction) at h) in
          let kept : tables ≡ after =
            ap (λ (p : GenerationStore × GenerationResponse). p.0) (ok-injective done) in
          let same : found ≡ answer =
            ap (λ (p : GenerationStore × GenerationResponse). p.1) (ok-injective done) in
          (
            existing,
            subst
                (λ (t : GenerationStore).
                  find (has_generation_key track_id key) t.generations ≡ some existing)
                kept e,
            replays ∙ ap ok same,
          )
    ]

-- An attempt that commits does what its transaction does.
run_generation_attempt-eq-ok {ℓ} :
    {A : Type ℓ} (fault : Option LocalizationError) (r : Result LocalizationError A) {a : A}
    → run_generation_attempt fault r ≡ ok a
    → r ≡ ok a
unfolding run_generation_attempt
run_generation_attempt-eq-ok fault (err e) h = cc h
run_generation_attempt-eq-ok none (ok done) h = h
run_generation_attempt-eq-ok (some e) (ok done) h = cc h

module _ (env : GenerationEnv) (context : AccessContext) (project_id track_id key scene_id : String)
    (attempts : ℕ → GenerationAttempt) where
  -- An answer that is looked up is the answer of a row.
  looked_up :
      (tables : GenerationStore) (winner : TranslationGeneration) {after : GenerationStore}
      {answer : GenerationResponse}
      → find (has_generation_key track_id key) tables.generations ≡ some winner
      → ◌≡◌ {A = GenerationStore × Result LocalizationError GenerationResponse}
          (tables, replay_generation scene_id winner)
          (after, ok answer)
      → HasAnswer after track_id key scene_id answer
  looked_up tables winner {after} {answer} found h =
      let kept : tables ≡ after =
        ap (λ (p : GenerationStore × Result LocalizationError GenerationResponse). p.0) h in
      (
        winner,
        subst
            (λ (t : GenerationStore).
              find (has_generation_key track_id key) t.generations ≡ some winner)
            kept found,
        ap (λ (p : GenerationStore × Result LocalizationError GenerationResponse). p.1) h,
      )

  -- After a lost race there is a further attempt, if one is left.
  retried :
      (left : ℕ) (e : LocalizationError) (later : GenerationStore)
      (again : GenerationStore × Result LocalizationError GenerationResponse)
      {after : GenerationStore} {answer : GenerationResponse}
      → ◌≡◌ {A = GenerationStore × Result LocalizationError GenerationResponse}
          (elim left [ zero ↦ (later, err e) | suc others ↦ again ])
          (after, ok answer)
      → again ≡ (after, ok answer)
  retried zero e later again h = cc h
  retried (suc left) e later again h = h

  generation_attempts-HasAnswer :
      (left : ℕ) (tables : GenerationStore) {after : GenerationStore} {answer : GenerationResponse}
      → generation_attempts env context project_id track_id key scene_id attempts left tables
        ≡ (after, ok answer)
      → HasAnswer after track_id key scene_id answer
  unfolding generation_attempts
  generation_attempts-HasAnswer zero tables h = cc h
  generation_attempts-HasAnswer (suc left) tables {after} {answer} h =
      let before = (attempts left).meanwhile tables in
      let later = (attempts left).before_lookup before in
      elim (Result-cases (
        run_generation_attempt (attempts left).fault
          (create_generation_transaction env context project_id track_id key scene_id before))) [
            | inr (done, e) ↦
                create_generation_transaction-HasAnswer env context project_id track_id key scene_id
                  before
                  (run_generation_attempt-eq-ok (attempts left).fault _ e
                    ∙ ap ok (committed done (rw (e, generation_attempts) at h)))
            | inl (thrown, e) ↦ elim (Recourse-cases (recourse_of thrown left)) [
              | inl r ↦
                  generation_attempts-HasAnswer left before (rw (e, r, generation_attempts) at h)
              | inr (inl r) ↦ cc (rw (e, r, generation_attempts) at h)
              | inr (inr r) ↦
                  elim (Option-cases (find (has_generation_key track_id key) later.generations)) [
                    | inr (winner, w) ↦
                        looked_up later winner w (rw (e, r, w, generation_attempts) at h)
                    | inl w ↦ generation_attempts-HasAnswer left later {after = after} (
                        retried left thrown later
                          (generation_attempts env context project_id track_id key scene_id attempts
                            left later)
                          (rw (e, r, w, generation_attempts) at h))
                  ]
            ]
          ]
    where
      committed :
          (done : GenerationStore × GenerationResponse)
          → ◌≡◌ {A = GenerationStore × Result LocalizationError GenerationResponse}
              (done.0, ok done.1)
              (after, ok answer)
          → done ≡ (after, answer)
      committed done h = cc h

  -- An answer is not the refusal.
  accepted :
      (enabled : Bool) (e : LocalizationError) (tables : GenerationStore)
      (made : GenerationStore × Result LocalizationError GenerationResponse)
      {after : GenerationStore} {answer : GenerationResponse}
      → ◌≡◌ {A = GenerationStore × Result LocalizationError GenerationResponse}
          (if enabled then made else (tables, err e))
          (after, ok answer)
      → made ≡ (after, ok answer)
  accepted true e tables made h = h
  accepted false e tables made h = cc h

  create_generation_for-HasAnswer :
      (tables : GenerationStore) {after : GenerationStore} {answer : GenerationResponse}
      → create_generation_for env context project_id track_id key scene_id attempts tables
        ≡ (after, ok answer)
      → HasAnswer after track_id key scene_id answer
  unfolding create_generation_for
  create_generation_for-HasAnswer tables {after} h =
      elim (Option-cases (find (has_generation_key track_id key) tables.generations)) [
        | inr (existing, e) ↦ looked_up tables existing e (rw (e, create_generation_for) at h)
        | inl e ↦ generation_attempts-HasAnswer 3 tables {after = after} (
            accepted env.config.enabled translation_disabled tables
              (generation_attempts env context project_id track_id key scene_id attempts 3 tables)
              (rw (e, create_generation_for) at h))
      ]

  -- A request that finds the row of its key answers from it.
  create_generation_for-replays :
      (tables : GenerationStore) (answer : GenerationResponse)
      → HasAnswer tables track_id key scene_id answer
      → create_generation_for env context project_id track_id key scene_id attempts tables
        ≡ (tables, ok answer)
  unfolding create_generation_for
  create_generation_for-replays tables answer (g, found, replays) =
      rw (found, create_generation_for) (ap (λ r. (tables, r)) replays)

generation_checked-eq_ok {ℓ} :
    {C : Type ℓ} (tables : GenerationStore) (checks : Result LocalizationError C)
    (next : C → GenerationStore × Result LocalizationError GenerationResponse)
    {after : GenerationStore} {answer : GenerationResponse}
    → generation_checked tables checks next ≡ (after, ok answer)
    → (c : C) × (checks ≡ ok c) × (next c ≡ (after, ok answer))
unfolding generation_checked
generation_checked-eq_ok tables (err e) next h = cc h
generation_checked-eq_ok tables (ok c) next h = (c, refl, h)

-- A request for a generation can be sent again: when it was answered, the same request, sent next by any
-- user who may edit, by any clock, under any configuration (with translation switched off too) and with
-- any failures, gets the same answer and changes nothing: no second generation, no second event. It holds
-- where that user has the track among the tables that the first request left.
pub create_generation-again :
    (env later_env : GenerationEnv) (context later_context : AccessContext)
    (project_id track_id key scene_id : String) (attempts later_attempts : ℕ → GenerationAttempt)
    (tables after : GenerationStore) (answer : GenerationResponse) (track : LocalizationTrack)
    → create_generation env context project_id track_id key scene_id attempts tables
      ≡ (after, ok answer)
    → assert_can_edit later_context ≡ ok tt
    → owned_track later_context project_id track_id after.store ≡ ok track
    → create_generation later_env later_context project_id track_id key scene_id later_attempts
        after
      ≡ (after, ok answer)
unfolding create_generation generation_checked
create_generation-again env later_env context later_context project_id track_id key scene_id
      attempts later_attempts tables after answer track h can_edit owned =
    let (first, checks, made) =
      generation_checked-eq_ok tables
        (assert_can_edit context
          >> assert_uuid scene_id "scene"
          >> throw_if (not (matches_idempotency key)) invalid_idempotency_key
          >> owned_track context project_id track_id tables.store)
        (λ track.
          create_generation_for env context project_id track.id key scene_id attempts tables)
        h in
    let valid = assert_can_edit context >> assert_uuid scene_id "scene" in
    let (_, passed, was_owned) =
      >>=-eq-ok (valid >> throw_if (not (matches_idempotency key)) invalid_idempotency_key) _
        checks in
    let (_, is_valid, has_key) = >>=-eq-ok valid _ passed in
    let (_, _, is_uuid) = >>=-eq-ok (assert_can_edit context) _ is_valid in
    let same : first.id ≡ track.id =
      owned_track-id context project_id track_id tables.store was_owned
      ∙ sym (owned_track-id later_context project_id track_id after.store owned) in
    rw (can_edit, is_uuid, has_key, owned)
      (create_generation_for-replays later_env later_context project_id track.id key scene_id
        later_attempts after answer
        (subst (λ id. HasAnswer after id key scene_id answer) same
          (create_generation_for-HasAnswer env context project_id first.id key scene_id attempts
            tables made)))
