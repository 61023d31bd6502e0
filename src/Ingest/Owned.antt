-- ===== src/Ingest/Owned.antt =====
-- `ownedUpload` before and after an update of the upload and of its video.
use voice_verse_ai.Common.{
  ◌≡◌, refl, subst, ap, ◌∙◌, Bool, ◌&&◌, inl, inr, some, String, Option-cases, ok, >>=-eq-ok,
  ok-injective, str_eq, eq_iff, arith,
}
use voice_verse_ai.Ingest.Types.{AccessContext, Video, Upload, Server, invalid_upload_id}
use voice_verse_ai.Ingest.Checks.{assert_uuid}
use voice_verse_ai.Ingest.Tables.{
  find, update, has_upload_id, has_video_id, with_video, owned_upload,
}
use voice_verse_ai.Ingest.Rows.{find-passes, find-update}

abbrev pub is_owned : AccessContext → String → Upload → Bool
is_owned context upload_id u =
    str_eq u.id upload_id && str_eq u.organization_id context.organization_id

-- What `ownedUpload` looks up.
pub record Owns (context : AccessContext) (upload_id : String) (server : Server) (u : Upload)
    (v : Video) : Type 0 where
  pub valid : assert_uuid upload_id invalid_upload_id ≡ ok tt
  pub upload : find (is_owned context upload_id) server.uploads ≡ some u
  pub video : find (has_video_id u.video_id) server.videos ≡ some v

module _ (context : AccessContext) (upload_id : String) where
  with_video-ok :
      (server : Server) (x u : Upload) (v : Video)
      → with_video server x ≡ ok (u, v)
      → (x ≡ u) × (find (has_video_id x.video_id) server.videos ≡ some v)
  unfolding with_video
  with_video-ok server x u v h =
      elim (Option-cases (find (has_video_id x.video_id) server.videos)) [
        | inl e ↦ absurd (cc (rw (e, with_video) at h))
        | inr (y, e) ↦
            let same : ◌≡◌ {A = Upload × Video} (x, y) (u, v) =
              ok-injective (rw (e, with_video) at h) in
            (ap (λ p. p.0) same, e ∙ ap (λ p. some p.1) same)
      ]

  pub owned_upload-Owns :
      (server : Server) (found : Upload × Video)
      → owned_upload context upload_id server ≡ ok found
      → Owns context upload_id server found.0 found.1
  unfolding owned_upload
  owned_upload-Owns server (u, v) h =
      let (_, valid, h1) = >>=-eq-ok (assert_uuid upload_id invalid_upload_id) _ h in
      elim (Option-cases (find (is_owned context upload_id) server.uploads)) [
        | inl e ↦ absurd (cc (rw e at h1))
        | inr (x, e) ↦
            let (same, stored) = with_video-ok server x u v (rw e at h1) in
            record {
              valid = valid;
              upload = e ∙ ap some same;
              video =
                  subst (λ z. find (has_video_id z.video_id) server.videos ≡ some v) same stored;
            }
      ]

  pub Owns-owned_upload :
      (server : Server) (u : Upload) (v : Video)
      → Owns context upload_id server u v
      → owned_upload context upload_id server ≡ ok (u, v)
  unfolding owned_upload with_video
  Owns-owned_upload server u v h =
      rw (h.valid, owned_upload) (rw h.upload (rw (h.video, with_video) refl))

  pub Owns-id :
      (server : Server) (u : Upload) (v : Video)
      → Owns context upload_id server u v
      → u.id ≡ upload_id
  Owns-id server u v h =
      (eq_iff u.id upload_id).0
        (ground (arith, find-passes (is_owned context upload_id) server.uploads h.upload))

  -- The updates of the service keep the columns that the search reads.
  pub Owns-update :
      (server server' : Server) (f : Upload → Upload) (g : Video → Video) (u : Upload) (v : Video)
      → ((a : Upload)
          → ((f a).id ≡ a.id)
            × ((f a).organization_id ≡ a.organization_id)
            × ((f a).video_id ≡ a.video_id))
      → ((a : Video) → (g a).id ≡ a.id)
      → Owns context upload_id server u v
      → server'.uploads ≡ update (has_upload_id u.id) f server.uploads
      → server'.videos ≡ update (has_video_id v.id) g server.videos
      → Owns context upload_id server' (f u) (g v)
  Owns-update server server' f g u v keeps keeps' h uploads videos = record {
    valid = h.valid;
    upload = rw uploads (
        find-update (is_owned context upload_id) (has_upload_id u.id) f
          (λ a. rw ((keeps a).0, (keeps a).1) refl)
          (λ a e. rw (Owns-id server u v h) (ground (arith, e))) server.uploads h.upload);
    video =
        rw (videos, (keeps u).2)
          (find-update (has_video_id u.video_id) (has_video_id v.id) g (λ a. rw (keeps' a) refl)
            (λ a e. rw same (e)) server.videos h.video);
  }
    where
      same : v.id ≡ u.video_id
      same =
          (eq_iff v.id u.video_id).0 (find-passes (has_video_id u.video_id) server.videos h.video)
