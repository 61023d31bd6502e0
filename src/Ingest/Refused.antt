-- ===== src/Ingest/Refused.antt =====
-- The tables after a `create` that is refused or fails.
use voice_verse_ai.Common.{
  ℕ, ◌≡◌, ap, subst, Bool-cases, Option-cases, inl, inr, ◌||◌, String, Result, ok, err,
}
use voice_verse_ai.Ingest.Types.{
  AccessContext, Video, Upload, Server, Config, CreateInput, NormalizedUpload, UploadResponse,
  IngestError, create_multipart_upload,
}
use voice_verse_ai.Ingest.Create.{
  CreateEnv, CreatePlan, replay, begin, violates_unique, created_video, call_storage, commit_create,
  begin_upload, run_plan, plan_create, create,
}

-- All but the requests that the object storage was sent.
pub record SameTables (a b : Server) : Type 0 where
  pub projects : a.projects ≡ b.projects
  pub videos : a.videos ≡ b.videos
  pub uploads : a.uploads ≡ b.uploads
  pub parts : a.parts ≡ b.parts
  pub scans : a.scans ≡ b.scans
  pub requests : a.requests ≡ b.requests
  pub audit : a.audit ≡ b.audit

abbrev Answer : Type 0
Answer = Server × Result IngestError UploadResponse

SameTables-of_eq : {a b : Server} → a ≡ b → SameTables a b
SameTables-of_eq same = record {
  projects = ap (λ (s : Server). s.projects) same;
  videos = ap (λ (s : Server). s.videos) same;
  uploads = ap (λ (s : Server). s.uploads) same;
  parts = ap (λ (s : Server). s.parts) same;
  scans = ap (λ (s : Server). s.scans) same;
  requests = ap (λ (s : Server). s.requests) same;
  audit = ap (λ (s : Server). s.audit) same;
}

commit_create-SameTables :
    (env : CreateEnv) (context : AccessContext) (normalized : NormalizedUpload) (video : Video)
    (upload : Upload) (server server' : Server) (e : IngestError)
    → commit_create env context normalized video upload server ≡ (server', err e)
    → SameTables server server'
unfolding commit_create
commit_create-SameTables env context normalized video upload server server' e h =
    elim (Bool-cases (violates_unique video upload server || env.fault)) [
      | inr f ↦ absurd (cc (rw (f, commit_create) at h))
      | inl t ↦
          let same = SameTables-of_eq (ap (λ (x : Answer). x.0) (rw (t, commit_create) at h)) in
          record {
            projects = same.projects;
            videos = same.videos;
            uploads = same.uploads;
            parts = same.parts;
            scans = same.scans;
            requests = same.requests;
            audit = same.audit;
          }
    ]

module _ (config : Config) (env : CreateEnv) (context : AccessContext)
    (project_id key : String) where
  begin_upload-SameTables :
      (normalized : NormalizedUpload) (total_parts : ℕ) (server server' : Server) (e : IngestError)
      → ((s : Server) → env.meanwhile s ≡ s)
      → begin_upload config env context project_id key normalized total_parts server
        ≡ (server', err e)
      → SameTables server server'
  unfolding begin_upload
  begin_upload-SameTables normalized total_parts server server' e alone h =
      elim (Option-cases env.provider) [
        | inl f ↦ through (SameTables-of_eq (ap (λ (x : Answer). x.0) (rw (f, begin_upload) at h)))
        | inr (provider_id, f) ↦ through (
            subst (λ s. SameTables s server') (alone called)
              (commit_create-SameTables env context normalized _ _ (env.meanwhile called) server' e
                (rw (f, begin_upload) at h)))
      ]
    where
      called : Server
      called =
          call_storage
            (create_multipart_upload
              (created_video config env context project_id normalized).storage_key)
            server

      through : SameTables called server' → SameTables server server'
      through s = record {
        projects = s.projects;
        videos = s.videos;
        uploads = s.uploads;
        parts = s.parts;
        scans = s.scans;
        requests = s.requests;
        audit = s.audit;
      }

  -- A creation that is refused or fails, at whatever step, while no other request is at work, leaves
  -- the tables as they were: no video, upload, project status or audit entry of it remains.
  pub create_refused :
      (input : CreateInput) (server server' : Server) (e : IngestError)
      → ((s : Server) → env.meanwhile s ≡ s)
      → create config env context project_id key input server ≡ (server', err e)
      → SameTables server server'
  unfolding create
  create_refused input server server' e alone h =
      go (plan_create config env context project_id key input server) h
    where
      go :
          (plan : Result IngestError CreatePlan)
          → run_plan config env context project_id key server plan ≡ (server', err e)
          → SameTables server server'
      go (err x) k = unfold run_plan in SameTables-of_eq (ap (λ (y : Answer). y.0) k)
      go (ok (replay r)) k = unfold run_plan in absurd (cc k)
      go (ok (begin n total_parts)) k =
          unfold run_plan in begin_upload-SameTables n total_parts server server' e alone k
