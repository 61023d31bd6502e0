-- ===== src/Ingest/Replay.antt =====
-- When the tables answer a `create` from an earlier request with its idempotency key.
use text.Mathlib.TextPositions.{eq_refl}
use voice_verse_ai.Common.{
  ℕ, ◌≡◌, refl, Bool, true, false, not, inl, inr, none, some, String, Option-cases, ok, ◌>>=◌,
  throw_if, >>=-eq-ok, text_eq_iff, arith,
}
use voice_verse_ai.Ingest.Types.{
  AccessContext, Video, Upload, Server, Config, CreateInput, NormalizedUpload, UploadResponse,
  invalid_project_id, invalid_idempotency_key,
}
use voice_verse_ai.Ingest.Patterns.{matches_idempotency}
use voice_verse_ai.Ingest.Checks.{
  assert_can_edit, assert_uuid, normalize_upload, assert_idempotent_create_matches,
}
use voice_verse_ai.Ingest.Tables.{find, has_key, has_video_id, with_video, to_upload_response}
use voice_verse_ai.Ingest.Rows.{find-append_new}
use voice_verse_ai.Ingest.Create.{
  CreateEnv, CreatePlan, replay, replay_upload, plan_upload, plan_normalized, plan_create, is_some,
  violates_unique, created_video, created_upload, insert_upload, after_failure,
}

-- The table has an upload under the key, and it answers the request with `r`.
abbrev pub Replays :
    AccessContext → String → String → NormalizedUpload → Server → UploadResponse → Type 0
Replays context project_id key normalized server r =
    (u : Upload) × (find (has_key context.organization_id key) server.uploads ≡ some u)
    × (replay_upload project_id normalized server u ≡ ok r)

module _ (config : Config) (context : AccessContext) (project_id key : String) where
  pub Replays-plan :
      (normalized : NormalizedUpload) (server : Server) (r : UploadResponse)
      → Replays context project_id key normalized server r
      → plan_normalized config context project_id key server normalized ≡ ok (replay r)
  unfolding plan_normalized
  Replays-plan normalized server r (u, found, e) = rw (found, plan_normalized) (rw e refl)

  begins :
      (normalized : NormalizedUpload) (server : Server) (r : UploadResponse)
      → plan_upload config context project_id normalized server ≡ ok (replay r)
      → ⊥
  unfolding plan_upload
  begins normalized server r h = ground arith

  pub plan-Replays :
      (normalized : NormalizedUpload) (server : Server) (r : UploadResponse)
      → plan_normalized config context project_id key server normalized ≡ ok (replay r)
      → Replays context project_id key normalized server r
  unfolding plan_normalized
  plan-Replays normalized server r h =
      elim (Option-cases (find (has_key context.organization_id key) server.uploads)) [
        | inl e ↦ absurd (begins normalized server r (rw (e, plan_normalized) at h))
        | inr (u, e) ↦ (u, e, answered u (rw (e, plan_normalized) at h))
      ]
    where
      answered :
          (u : Upload)
          → (replay_upload project_id normalized server u >>= λ a. ok (replay a)) ≡ ok (replay r)
          → replay_upload project_id normalized server u ≡ ok r
      answered u e =
          let (a, replayed, same) = >>=-eq-ok (replay_upload project_id normalized server u) _ e in
          cc (replayed, same)

  -- What passed the checks once passes them in any state of the tables.
  pub plan_create-checked :
      (env env' : CreateEnv) (input : CreateInput) (server : Server) {plan : CreatePlan}
      → env'.nfc ≡ env.nfc
      → plan_create config env context project_id key input server ≡ ok plan
      → (normalized : NormalizedUpload) × (plan_normalized config context project_id key server
            normalized
          ≡ ok plan)
        × ((s : Server)
            → plan_create config env' context project_id key input s
              ≡ plan_normalized config context project_id key s normalized)
  unfolding plan_create
  plan_create-checked env env' input server same h =
      let (_, edits, h1) = >>=-eq-ok (assert_can_edit context) _ h in
      let (_, named, h2) = >>=-eq-ok (assert_uuid project_id invalid_project_id) _ h1 in
      let (_, keyed, h3) =
        >>=-eq-ok (throw_if (not (matches_idempotency key)) invalid_idempotency_key) _ h2 in
      let (normalized, valid, planned) =
        >>=-eq-ok (normalize_upload env.nfc config.max_upload_bytes input) _ h3 in
      (normalized, planned, λ s. rw (same, edits, named, keyed, valid) refl)

  created_matches :
      (env : CreateEnv) (normalized : NormalizedUpload)
      → assert_idempotent_create_matches
          (created_video config env context project_id normalized)
          project_id
          normalized
        ≡ ok tt
  unfolding assert_idempotent_create_matches created_video
  created_matches env normalized = ground (
    arith,
    eq_refl project_id,
    eq_refl normalized.filename,
    (text_eq_iff normalized.sha256 normalized.sha256).1 refl,
  )

  created_has_id :
      (env : CreateEnv) (normalized : NormalizedUpload)
      → has_video_id env.video_id (created_video config env context project_id normalized) ≡ true
  unfolding created_video
  created_has_id env normalized = eq_refl env.video_id

  replay_upload-matching :
      (normalized : NormalizedUpload) (server : Server) (u : Upload) (v : Video)
      → find (has_video_id u.video_id) server.videos ≡ some v
      → assert_idempotent_create_matches v project_id normalized ≡ ok tt
      → replay_upload project_id normalized server u ≡ ok (to_upload_response u v)
  unfolding replay_upload with_video
  replay_upload-matching normalized server u v found matching =
      rw (found, with_video) (rw matching refl)

  -- The upload that the transaction inserts answers the next request with its key.
  pub insert_upload-Replays :
      (env : CreateEnv) (normalized : NormalizedUpload) (total_parts : ℕ) (provider_id : String)
      (server : Server)
      → find (has_key context.organization_id key) server.uploads ≡ none
      → find (has_video_id env.video_id) server.videos ≡ none
      → let video = created_video config env context project_id normalized in
        let upload = created_upload config env context key total_parts provider_id in
        Replays context project_id key normalized
          (insert_upload context video upload server)
          (to_upload_response upload video)
  unfolding insert_upload created_upload
  insert_upload-Replays env normalized total_parts provider_id server no_upload no_video = (
    created_upload config env context key total_parts provider_id,
    find-append_new (has_key context.organization_id key) server.uploads _ no_upload
        (ground (arith, eq_refl context.organization_id, eq_refl key)),
    replay_upload-matching normalized
        (insert_upload context (created_video config env context project_id normalized)
          (created_upload config env context key total_parts provider_id) server)
        (created_upload config env context key total_parts provider_id)
        (created_video config env context project_id normalized)
        (find-append_new (has_video_id env.video_id) server.videos _ no_video
          (created_has_id env normalized))
        (created_matches env normalized),
  )

  pub violates_unique-none :
      (video : Video) (upload : Upload) (server : Server)
      → violates_unique video upload server ≡ false
      → find (has_key upload.organization_id upload.idempotency_key) server.uploads ≡ none
  unfolding violates_unique is_some
  violates_unique-none video upload server h = ground (
    arith,
    Option-cases (find (has_key upload.organization_id upload.idempotency_key) server.uploads),
  )

  pub after_failure-Replays :
      (normalized : NormalizedUpload) (unique : Bool) (server : Server) (r : UploadResponse)
      → after_failure context project_id key normalized unique server ≡ ok r
      → Replays context project_id key normalized server r
  unfolding after_failure
  after_failure-Replays normalized unique server r h =
      elim (Option-cases (find (has_key context.organization_id key) server.uploads)) [
        | inl e ↦ absurd (cc (rw (e, after_failure) at h))
        | inr (u, e) ↦ (u, e, (rw (e, after_failure) at h))
      ]
