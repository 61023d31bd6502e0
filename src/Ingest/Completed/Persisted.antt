-- ===== src/Ingest/Completed/Persisted.antt =====
-- The owned upload under its id, before and after an update and the persisted manifest.
use voice_verse_ai.Common.{
  ◌≡◌, refl, ap, subst, sym, ◌∙◌, false, not, some, String, List, [], ◌∷◌, Bool-cases, inl, inr, ok,
  throw_if, >>=-eq-ok, ok-injective,
}
use voice_verse_ai.Ingest.Types.{
  AccessContext, completing, Video, Upload, CompletedPart, Server, manifest_differs,
}
use voice_verse_ai.Ingest.Tables.{find, update, has_upload_id, has_video_id}
use voice_verse_ai.Ingest.Rows.{find-update}
use voice_verse_ai.Ingest.Complete.{
  is_completed, same_manifest, set_status, write_manifest, persist_completion_manifest,
}
use voice_verse_ai.Ingest.Owned.{Owns, Owns-update}

module _ (context : AccessContext) (upload_id : String) where
  pub record Found (server : Server) (u : Upload) (v : Video) : Type 0 where
    pub owns : Owns context upload_id server u v
    pub by_id : find (has_upload_id u.id) server.uploads ≡ some u

  pub Found-update :
      (server server' : Server) (f : Upload → Upload) (g : Video → Video) (u : Upload) (v : Video)
      → ((a : Upload)
          → ((f a).id ≡ a.id)
            × ((f a).organization_id ≡ a.organization_id)
            × ((f a).video_id ≡ a.video_id))
      → ((a : Video) → (g a).id ≡ a.id)
      → Found server u v
      → server'.uploads ≡ update (has_upload_id u.id) f server.uploads
      → server'.videos ≡ update (has_video_id v.id) g server.videos
      → Found server' (f u) (g v)
  Found-update server server' f g u v keeps keeps' h uploads videos = record {
    owns = Owns-update context upload_id server server' f g u v keeps keeps' h.owns uploads videos;
    by_id =
        subst (λ i. find (has_upload_id i) server'.uploads ≡ some (f u)) (sym (keeps u).0)
          (rw uploads (
            find-update (has_upload_id u.id) (has_upload_id u.id) f (λ a. rw ((keeps a).0) refl)
              (λ a e. e) server.uploads h.by_id));
  }

  write_manifest-rows :
      (id : String) (parts persisted : List CompletedPart) (server server' : Server)
      → write_manifest id parts persisted server ≡ ok server'
      → (server'.uploads ≡ set_status id completing server.uploads)
        × (server'.videos ≡ server.videos)
  unfolding write_manifest
  write_manifest-rows id parts [] server server' h =
      let same = ok-injective h in
      (sym (ap (λ (s : Server). s.uploads) same), sym (ap (λ (s : Server). s.videos) same))
  write_manifest-rows id parts (first ∷ others) server server' h =
      let (_, _, k) =
        >>=-eq-ok (throw_if (not (same_manifest (first ∷ others) parts)) manifest_differs) _ h in
      let same = ok-injective k in
      (sym (ap (λ (s : Server). s.uploads) same), sym (ap (λ (s : Server). s.videos) same))

  update_nothing : (v : Video) (vs : List Video) → update (has_video_id v.id) (λ a. a) vs ≡ vs
  unfolding update
  update_nothing v [] = refl
  update_nothing v (w ∷ ws) = elim (Bool-cases (has_video_id v.id w)) [
    | inl e ↦ rw (e, update_nothing v ws) refl
    | inr e ↦ rw (e, update_nothing v ws) refl
  ]

  pub persist-Found :
      (parts : List CompletedPart) (server server' : Server) (u : Upload) (v : Video)
      → Found server u v
      → is_completed u.status ≡ false
      → persist_completion_manifest u.id parts server ≡ ok server'
      → Found server' (record u { status = completing }) v
  unfolding persist_completion_manifest
  persist-Found parts server server' u v h unfinished e =
      let written =
        rw (unfinished, persist_completion_manifest) at
          (rw (h.by_id, persist_completion_manifest) at e) in
      let (uploads, videos) = write_manifest-rows u.id parts _ server server' written in
      Found-update server server' (λ a. record a { status = completing }) (λ a. a) u v
        (λ a. (refl, refl, refl)) (λ a. refl) h uploads
        (videos ∙ sym (update_nothing v server.videos))
