-- ===== src/Ingest/Again.antt =====
-- The requests of `create` under one idempotency key.
use voice_verse_ai.Common.{
  ℕ, ◌≡◌, refl, ap, subst, sym, Bool, true, false, inl, inr, none, String, Bool-cases, Option-cases,
  Result, ok, err, ◌>>=◌, >>=-eq-ok, ok-injective, arith,
}
use voice_verse_ai.Ingest.Types.{
  AccessContext, Video, Upload, Server, Config, CreateInput, NormalizedUpload, UploadResponse,
  IngestError, StorageCall, abort_multipart_upload,
}
use voice_verse_ai.Ingest.Tables.{find, has_key, has_video_id, to_upload_response}
use voice_verse_ai.Ingest.Create.{
  CreateEnv, CreatePlan, replay, begin, replay_upload, plan_upload, plan_normalized, plan_create,
  violates_unique, created_video, created_upload, insert_upload, call_storage, give_up,
  commit_create, begin_upload, run_plan, create,
}
use voice_verse_ai.Ingest.Replay.{
  Replays, Replays-plan, plan-Replays, plan_create-checked, insert_upload-Replays,
  violates_unique-none, after_failure-Replays,
}

-- The id drawn for the video is of no video among the tables that the transaction finds: those that were
-- read, after the call of the storage and what other requests wrote meanwhile.
abbrev pub IsNewVideo : CreateEnv → Server → Type 0
IsNewVideo env server =
    (call : StorageCall)
    → find (has_video_id env.video_id) (env.meanwhile (call_storage call server)).videos ≡ none

module _ (config : Config) (context : AccessContext) (project_id key : String) where
  commit_create-Replays :
      (env : CreateEnv) (normalized : NormalizedUpload) (total_parts : ℕ) (provider_id : String)
      (server server' : Server) (r : UploadResponse)
      → find (has_video_id env.video_id) server.videos ≡ none
      → commit_create env context normalized
          (created_video config env context project_id normalized)
          (created_upload config env context key total_parts provider_id)
          server
        ≡ (server', ok r)
      → Replays context project_id key normalized server' r
  unfolding commit_create created_upload created_video
  commit_create-Replays env normalized total_parts provider_id server server' r fresh h =
      elim (Bool-cases (violates_unique video upload server)) [
        | inl e ↦ gave_up true (rw (e, commit_create) at h)
        | inr e ↦ elim (Bool-cases env.fault) [
          | inl f ↦ gave_up false (rw (e, commit_create) at (rw (f, commit_create) at h))
          | inr f ↦ accepted e (rw (e, commit_create) at (rw (f, commit_create) at h))
        ]
      ]
    where
      video : Video
      video = created_video config env context project_id normalized

      upload : Upload
      upload = created_upload config env context key total_parts provider_id

      called : Server
      called = call_storage (abort_multipart_upload provider_id video.storage_key) server

      gave_up :
          (conflict : Bool)
          → give_up context normalized conflict video upload called ≡ (server', ok r)
          → Replays context project_id key normalized server' r
      gave_up conflict e =
          subst (λ s. Replays context project_id key normalized s r) (ap (λ x. x.0) e)
            (after_failure-Replays config context project_id key normalized conflict called r
              (ap (λ x. x.1) e))

      accepted :
          violates_unique video upload server ≡ false
          → ◌≡◌ {A = Server × Result IngestError UploadResponse}
              (insert_upload context video upload server, ok (to_upload_response upload video))
              (server', ok r)
          → Replays context project_id key normalized server' r
      accepted e k =
          let answers =
            insert_upload-Replays config context project_id key env normalized total_parts
              provider_id server
              (violates_unique-none config context project_id key video upload server e) fresh in
          subst (λ s. Replays context project_id key normalized s r) (ap (λ x. x.0) k)
            (subst
              (Replays context project_id key normalized
                (insert_upload context video upload server))
              (ok-injective (ap (λ x. x.1) k)) answers)

  begin_upload-Replays :
      (env : CreateEnv) (normalized : NormalizedUpload) (total_parts : ℕ) (server server' : Server)
      (r : UploadResponse)
      → IsNewVideo env server
      → begin_upload config env context project_id key normalized total_parts server
        ≡ (server', ok r)
      → Replays context project_id key normalized server' r
  unfolding begin_upload
  begin_upload-Replays env normalized total_parts server server' r fresh h =
      elim (Option-cases env.provider) [
        | inl e ↦ absurd (cc (rw (e, begin_upload) at h))
        | inr (provider_id, e) ↦
            commit_create-Replays env normalized total_parts provider_id _ server' r (fresh _)
              (rw (e, begin_upload) at h)
      ]

  plan-begin :
      (normalized other : NormalizedUpload) (total_parts : ℕ) (server : Server)
      → plan_normalized config context project_id key server normalized
        ≡ ok (begin other total_parts)
      → normalized ≡ other
  unfolding plan_normalized
  plan-begin normalized other total_parts server h =
      elim (Option-cases (find (has_key context.organization_id key) server.uploads)) [
        | inl e ↦ began (rw (e, plan_normalized) at h)
        | inr (u, e) ↦ absurd (replayed u (rw (e, plan_normalized) at h))
      ]
    where
      replayed :
          (u : Upload)
          → (replay_upload project_id normalized server u >>= λ a. ok (replay a))
            ≡ ok (begin other total_parts)
          → ⊥
      replayed u e =
          let (a, _, same) = >>=-eq-ok (replay_upload project_id normalized server u) _ e in cc same

      began :
          plan_upload config context project_id normalized server ≡ ok (begin other total_parts)
          → normalized ≡ other
      began e = unfold plan_upload in ground arith

  Replays-create :
      (env : CreateEnv) (input : CreateInput) (normalized : NormalizedUpload) (server : Server)
      (r : UploadResponse)
      → plan_create config env context project_id key input server
        ≡ plan_normalized config context project_id key server normalized
      → Replays context project_id key normalized server r
      → create config env context project_id key input server ≡ (server, ok r)
  unfolding create run_plan
  Replays-create env input normalized server r checked answers =
      rw (checked, create)
        (rw (Replays-plan config context project_id key normalized server r answers) refl)

  -- A request that is answered leaves the tables so that the same request, sent again under its key, is
  -- answered alike and changes nothing, whatever the second would draw, find or be refused by the
  -- storage. The id that the first draws for its video is new in the tables that it writes to, which are
  -- those that it was given, with its call of the storage and what others wrote meanwhile.
  pub create_again :
      (env env' : CreateEnv) (input : CreateInput) (server server' : Server) (r : UploadResponse)
      → env'.nfc ≡ env.nfc
      → IsNewVideo env server
      → create config env context project_id key input server ≡ (server', ok r)
      → create config env' context project_id key input server' ≡ (server', ok r)
  unfolding create begin_upload run_plan
  create_again env env' input server server' r same fresh h =
      go (plan_create config env context project_id key input server) refl h
    where
      go :
          (plan : Result IngestError CreatePlan)
          → plan_create config env context project_id key input server ≡ plan
          → run_plan config env context project_id key server plan ≡ (server', ok r)
          → create config env' context project_id key input server' ≡ (server', ok r)
      go (err e) planned k = unfold run_plan in cc k
      go (ok (replay a)) planned k =
          let (normalized, answered, again) =
            plan_create-checked config context project_id key env env' input server same planned in
          let answers = plan-Replays config context project_id key normalized server a answered in
          Replays-create env' input normalized server' r (again server') (
            subst (λ s. Replays context project_id key normalized s r) (ap (λ x. x.0) k)
              (subst (Replays context project_id key normalized server)
                (ok-injective (ap (λ x. x.1) k)) answers))
      go (ok (begin n total_parts)) planned k =
          let (normalized, answered, again) =
            plan_create-checked config context project_id key env env' input server same planned in
          let started = begin_upload-Replays env n total_parts server server' r fresh k in
          Replays-create env' input normalized server' r (again server') (
            subst (λ m. Replays context project_id key m server' r)
              (sym (plan-begin normalized n total_parts server answered)) started)
