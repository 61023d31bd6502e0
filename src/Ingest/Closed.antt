-- ===== src/Ingest/Closed.antt =====
-- The operations on an upload that `abort` has closed.
use voice_verse_ai.Common.{ℕ, ◌≡◌, refl, ap, subst, false, String, List, Result, ok, err}
use voice_verse_ai.Common.Sort.{sort_by}
use voice_verse_ai.Ingest.Types.{
  AccessContext, MultipartUploadStatus, initiated, completing, completed, aborted, expired, failed,
  Video, Upload, CompletedPart, Server, Config, IngestError, no_longer_writable,
}
use voice_verse_ai.Ingest.Checks.{Checked, is_allowed, assert_upload_accepts_parts, compare_parts}
use voice_verse_ai.Ingest.Tables.{owned_upload}
use voice_verse_ai.Ingest.Complete.{
  CompleteEnv, is_completed, check_complete, complete_found, complete,
}
use voice_verse_ai.Ingest.Access.{
  sign_parts, aborted_upload, aborted_video, abort_rows, abort_found, abort,
}
use voice_verse_ai.Ingest.Owned.{Owns, owned_upload-Owns, Owns-owned_upload, Owns-update}

module _ (context : AccessContext) (upload_id : String) where
  aborted-refused :
      (env : CompleteEnv) (u : Upload) (v : Video) (parts : List CompletedPart)
      → u.status ≡ aborted
      → (is_completed u.status ≡ false) × (check_complete env u v parts ≡ err no_longer_writable)
  unfolding check_complete assert_upload_accepts_parts is_completed is_allowed
  aborted-refused env u v parts e = (rw e refl, rw e refl)

  Owns-complete :
      (env : CompleteEnv) (parts : List CompletedPart) (server : Server) (u : Upload) (v : Video)
      → Owns context upload_id server u v
      → u.status ≡ aborted
      → complete env context upload_id parts server ≡ (server, err no_longer_writable)
  unfolding complete complete_found
  Owns-complete env parts server u v h e =
      let (open_still, refused) = aborted-refused env u v (sort_by compare_parts parts) e in
      rw (Owns-owned_upload context upload_id server u v h, complete)
        (rw (open_still, complete_found) (rw (refused, complete_found) refl))

  Owns-sign_parts :
      (config : Config) (sign : Upload → Video → ℕ → ℕ → String) (now : ℕ) (numbers : List ℕ)
      (server : Server) (u : Upload) (v : Video)
      → Owns context upload_id server u v
      → u.status ≡ aborted
      → sign_parts config sign now context upload_id numbers server ≡ err no_longer_writable
  unfolding sign_parts assert_upload_accepts_parts is_allowed
  Owns-sign_parts config sign now numbers server u v h e =
      rw (Owns-owned_upload context upload_id server u v h, sign_parts) (rw (e, sign_parts) refl)

  abort_rows-Owns :
      (now : ℕ) (server called : Server) (u : Upload) (v : Video)
      → Owns context upload_id server u v
      → called.uploads ≡ server.uploads
      → called.videos ≡ server.videos
      → Owns context upload_id
          (abort_rows now context u v called)
          (aborted_upload now u)
          (aborted_video v)
  unfolding abort_rows
  abort_rows-Owns now server called u v h uploads videos =
      Owns-update context upload_id server (abort_rows now context u v called) (aborted_upload now)
        aborted_video u v (λ a. (refl, refl, refl)) (λ a. refl) h (rw uploads refl) (rw videos refl)

  written-Owns :
      (now : ℕ) (server called server' : Server) (u : Upload) (v : Video)
      → Owns context upload_id server u v
      → called.uploads ≡ server.uploads
      → called.videos ≡ server.videos
      → ◌≡◌ {A = Server × Checked} (abort_rows now context u v called, ok tt) (server', ok tt)
      → (x : Upload) × (y : Video) × Owns context upload_id server' x y × (x.status ≡ aborted)
  written-Owns now server called server' u v h uploads videos k = (
    aborted_upload now u,
    aborted_video v,
    subst (λ s. Owns context upload_id s (aborted_upload now u) (aborted_video v)) (ap (λ x. x.0) k)
        (abort_rows-Owns now server called u v h uploads videos),
    refl,
  )

  abort_found-Owns :
      (status : MultipartUploadStatus) (now : ℕ) (server server' : Server) (u : Upload) (v : Video)
      → u.status ≡ status
      → Owns context upload_id server u v
      → abort_found status now (λ s. s) context u v server ≡ (server', ok tt)
      → (x : Upload) × (y : Video) × Owns context upload_id server' x y × (x.status ≡ aborted)
  unfolding abort_found
  abort_found-Owns aborted now server server' u v e h k =
      (u, v, subst (λ s. Owns context upload_id s u v) (ap (λ x. x.0) k) h, e)
  abort_found-Owns completed now server server' u v e h k = cc k
  abort_found-Owns initiated now server server' u v e h k =
      written-Owns now server _ server' u v h refl refl k
  abort_found-Owns completing now server server' u v e h k =
      written-Owns now server _ server' u v h refl refl k
  abort_found-Owns expired now server server' u v e h k =
      written-Owns now server _ server' u v h refl refl k
  abort_found-Owns failed now server server' u v e h k =
      written-Owns now server _ server' u v h refl refl k

  -- The upload that `abort` leaves is aborted.
  abort-Owns :
      (now : ℕ) (server server' : Server)
      → abort now (λ s. s) context upload_id server ≡ (server', ok tt)
      → (u : Upload) × (v : Video) × Owns context upload_id server' u v × (u.status ≡ aborted)
  unfolding abort
  abort-Owns now server server' h = go (owned_upload context upload_id server) refl h
    where
      go :
          (found : Result IngestError (Upload × Video))
          → owned_upload context upload_id server ≡ found
          → ◌≡◌ {A = Server × Checked}
              (elim found [
                | err e ↦ (server, err e)
                | ok f ↦ abort_found f.0.status now (λ s. s) context f.0 f.1 server
              ])
              (server', ok tt)
          → (u : Upload) × (v : Video) × Owns context upload_id server' u v × (u.status ≡ aborted)
      go (err e) found k = cc k
      go (ok (u, v)) found k =
          abort_found-Owns u.status now server server' u v refl
            (owned_upload-Owns context upload_id server (u, v) found) k

  -- An abort that succeeds, with no other request between its two steps, leaves the upload so that
  -- every later completion and every later signing of parts is refused as no longer writable, and a
  -- second abort changes nothing.
  pub abort_closes :
      (now : ℕ) (server server' : Server)
      → abort now (λ s. s) context upload_id server ≡ (server', ok tt)
      → ((env : CompleteEnv) (parts : List CompletedPart)
          → complete env context upload_id parts server' ≡ (server', err no_longer_writable))
        × ((config : Config) (sign : Upload → Video → ℕ → ℕ → String) (later : ℕ) (ns : List ℕ)
            → sign_parts config sign later context upload_id ns server' ≡ err no_longer_writable)
        × ((later : ℕ) → abort later (λ s. s) context upload_id server' ≡ (server', ok tt))
  unfolding abort abort_found
  abort_closes now server server' h =
      let (u, v, owns, closed) = abort-Owns now server server' h in
      (
        λ env parts. Owns-complete env parts server' u v owns closed,
        λ config sign later ns. Owns-sign_parts config sign later ns server' u v owns closed,
        λ later.
            rw (Owns-owned_upload context upload_id server' u v owns, abort)
              (rw (closed, abort_found) refl),
      )
