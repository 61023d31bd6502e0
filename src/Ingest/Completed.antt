-- ===== src/Ingest/Completed.antt =====
-- The rows and the answers of a completed upload.
use voice_verse_ai.Common.{
  ◌≡◌, refl, ap, subst, sym, ◌∙◌, true, false, not, Option, none, some, String, List, [], ◌∷◌, ◌++◌,
  Bool-cases, inl, inr, Result, ok, err, throw_if, >>=-eq-ok, ok-injective, eq_iff, ◌==◌,
}
use voice_verse_ai.Common.Sort.{sort_by}
use voice_verse_ai.Ingest.Types.{
  AccessContext, completing, Video, Upload, CompletedPart, Server, StoredObject, UploadResponse,
  IngestError, manifest_differs,
}
use voice_verse_ai.Ingest.Checks.{Checked, compare_parts}
use voice_verse_ai.Ingest.Tables.{
  find, update, has_upload_id, has_video_id, owned_upload, to_upload_response,
}
use voice_verse_ai.Ingest.Rows.{find-passes, find-update}
use voice_verse_ai.Ingest.Complete.{
  CompleteEnv, is_completed, same_manifest, set_status, write_manifest, persist_completion_manifest,
  complete_row, uploaded_row, queue_scan, write_rows, finish_upload, finalize_upload, stored_object,
  storage_calls_of, settle, settle_persisted, check_complete, complete_parts, complete_checked,
  complete_found, complete,
}
use voice_verse_ai.Ingest.Owned.{Owns, is_owned, owned_upload-Owns, Owns-owned_upload, Owns-update}
mod Persisted
use voice_verse_ai.Ingest.Completed.Persisted.{Found, Found-update, persist-Found}

-- No other upload has the id of the upload that is found.
abbrev pub IsKeyed : String → Server → Type 0
IsKeyed upload_id server =
    (context : AccessContext) (u : Upload)
    → find (is_owned context upload_id) server.uploads ≡ some u
    → find (has_upload_id u.id) server.uploads ≡ some u

-- No other request writes while this one runs.
pub record IsAlone (env : CompleteEnv) : Type 0 where
  pub persist : (s : Server) → env.before_persist s ≡ s
  pub settle : (s : Server) → env.before_settle s ≡ s

module _ (context : AccessContext) (upload_id : String) where
  -- What a completion leaves: the upload is completed, and the answer is of its row.
  abbrev IsAnswered : Server → UploadResponse → Type 0
  IsAnswered server r =
      (u : Upload) × (v : Video) × Owns context upload_id server u v
      × (is_completed u.status ≡ true)
      × (to_upload_response u v ≡ r)

  finalize_upload-written :
      (env : CompleteEnv) (u₀ u : Upload) (v : Video) (etag : Option String)
      (server server' : Server) (r : UploadResponse)
      → u₀.id ≡ u.id
      → Found context upload_id server u v
      → finalize_upload env context u₀ v etag server ≡ (server', ok r)
      → IsAnswered server' r
  unfolding finalize_upload finish_upload queue_scan is_completed
  finalize_upload-written env u₀ u v etag server server' r same h e =
      let written = write_rows env.now u₀ v etag server in
      let after =
        Found-update context upload_id server written (complete_row env.now)
          (uploaded_row env.now etag) u v (λ a. (refl, refl, refl)) (λ a. refl) h (rw same refl)
          refl in
      let finished =
        rw
          (
            subst (λ i. find (has_upload_id i) written.uploads ≡ some (complete_row env.now u))
                (sym same) after.by_id,
            finalize_upload,
          )
          at e in
      let stored =
        subst (λ i. find (has_video_id i) written.videos ≡ some (uploaded_row env.now etag v))
          (sym (
            (eq_iff v.id u.video_id).0
              (find-passes (has_video_id u.video_id) server.videos h.owns.video)))
          after.owns.video in
      let returned = rw (stored, finalize_upload) at finished in
      (
        complete_row env.now u,
        uploaded_row env.now etag v,
        subst (λ s. Owns context upload_id s (complete_row env.now u) (uploaded_row env.now etag v))
            (ap (λ x. x.0) returned)
            (record {
              valid = after.owns.valid;
              upload = after.owns.upload;
              video = after.owns.video;
            }),
        refl,
        ok-injective (ap (λ x. x.1) returned),
      )

  settle-written :
      (env : CompleteEnv) (u₀ u : Upload) (v : Video)
      (stored : Option (Option String × StoredObject)) (server server' : Server)
      (r : UploadResponse)
      → u₀.id ≡ u.id
      → Found context upload_id server u v
      → settle env context u₀ v stored server ≡ (server', ok r)
      → IsAnswered server' r
  unfolding settle
  settle-written env u₀ u v none server server' r same h e = cc e
  settle-written env u₀ u v (some (etag, stored)) server server' r same h e =
      elim (Bool-cases (stored.byte_size == v.byte_size)) [
        | inl t ↦ finalize_upload-written env u₀ u v _ server server' r same h (rw (t, settle) at e)
        | inr f ↦ absurd (cc (rw (f, settle) at e))
      ]

  complete_parts-written :
      (env : CompleteEnv) (parts : List CompletedPart) (u : Upload) (v : Video)
      (server server' : Server) (r : UploadResponse)
      → IsAlone env
      → is_completed u.status ≡ false
      → Found context upload_id server u v
      → complete_parts env context u v parts server ≡ (server', ok r)
      → IsAnswered server' r
  unfolding complete_parts
  complete_parts-written env parts u v server server' r alone unfinished h e =
      go (persist_completion_manifest u.id parts server) refl
        (rw (alone.persist server, complete_parts) at e)
    where
      with_calls :
          (s : Server)
          → Found context upload_id s (record u { status = completing }) v
          → Found context upload_id
              (record s { storage_calls = s.storage_calls ++ storage_calls_of env u v parts })
              (record u { status = completing })
              v
      with_calls s f = record {
        owns = record { valid = f.owns.valid; upload = f.owns.upload; video = f.owns.video };
        by_id = f.by_id;
      }

      settled :
          (s : Server)
          → settle_persisted env context u v parts server (ok s) ≡ (server', ok r)
          → settle env context u v
              (stored_object env)
              (record s { storage_calls = s.storage_calls ++ storage_calls_of env u v parts })
            ≡ (server', ok r)
      settled s k =
          unfold settle_persisted in
          subst (λ z. settle env context u v (stored_object env) z ≡ (server', ok r))
            (alone.settle
              (record s { storage_calls = s.storage_calls ++ storage_calls_of env u v parts }))
            k

      go :
          (outcome : Result IngestError Server)
          → persist_completion_manifest u.id parts server ≡ outcome
          → settle_persisted env context u v parts server outcome ≡ (server', ok r)
          → IsAnswered server' r
      go (err x) planned k = unfold settle_persisted in cc k
      go (ok persisted) planned k =
          settle-written env u (record u { status = completing }) v (stored_object env)
            (record persisted {
              storage_calls = persisted.storage_calls ++ storage_calls_of env u v parts;
            })
            server' r refl
            (with_calls persisted
              (persist-Found context upload_id parts server persisted u v h unfinished planned))
            (settled persisted k)

  complete_found-written :
      (env : CompleteEnv) (parts : List CompletedPart) (u : Upload) (v : Video)
      (server server' : Server) (r : UploadResponse)
      → IsAlone env
      → Found context upload_id server u v
      → complete_found env context parts u v server ≡ (server', ok r)
      → IsAnswered server' r
  unfolding complete_found
  complete_found-written env parts u v server server' r alone h e =
      elim (Bool-cases (is_completed u.status)) [
        | inl t ↦
            let returned = rw (t, complete_found) at e in
            (
              u,
              v,
              subst (λ s. Owns context upload_id s u v) (ap (λ x. x.0) returned) h.owns,
              t,
              ok-injective (ap (λ x. x.1) returned),
            )
        | inr f ↦
            checked f (check_complete env u v (sort_by compare_parts parts))
              (rw (f, complete_found) at e)
      ]
    where
      checked :
          is_completed u.status ≡ false
          → (outcome : Checked)
          → complete_checked env context (sort_by compare_parts parts) u v server outcome
            ≡ (server', ok r)
          → IsAnswered server' r
      checked f (err x) k = unfold complete_checked in cc k
      checked f (ok _) k =
          unfold complete_checked in
          complete_parts-written env (sort_by compare_parts parts) u v server server' r alone f h k

  IsAnswered-complete :
      (env : CompleteEnv) (parts : List CompletedPart) (server : Server) (r : UploadResponse)
      → IsAnswered server r
      → complete env context upload_id parts server ≡ (server, ok r)
  unfolding complete complete_found
  IsAnswered-complete env parts server r (u, v, owns, done, same) =
      rw (Owns-owned_upload context upload_id server u v owns, complete)
        (rw (done, complete_found) (rw same refl))

  -- A completion that succeeds, with no other request at work and no other upload of its id, answers
  -- that the upload is completed, and every later completion, whatever parts it names and whatever the
  -- storage would answer it, is answered alike and changes nothing.
  pub complete_again :
      (env : CompleteEnv) (parts : List CompletedPart) (server server' : Server)
      (r : UploadResponse)
      → IsAlone env
      → IsKeyed upload_id server
      → complete env context upload_id parts server ≡ (server', ok r)
      → (is_completed r.status ≡ true)
        × ((later : CompleteEnv) (others : List CompletedPart)
            → complete later context upload_id others server' ≡ (server', ok r))
  unfolding complete to_upload_response
  complete_again env parts server server' r alone keyed e =
      let (u, v, owns, done, same) = go (owned_upload context upload_id server) refl e in
      (
        subst (λ (x : UploadResponse). is_completed x.status ≡ true) same done,
        λ later others. IsAnswered-complete later others server' r (u, v, owns, done, same),
      )
    where
      go :
          (found : Result IngestError (Upload × Video))
          → owned_upload context upload_id server ≡ found
          → ◌≡◌ {A = Server × Result IngestError UploadResponse}
              (elim found [
                | err x ↦ (server, err x)
                | ok f ↦ complete_found env context parts f.0 f.1 server
              ])
              (server', ok r)
          → IsAnswered server' r
      go (err x) found k = cc k
      go (ok (u, v)) found k =
          let owns = owned_upload-Owns context upload_id server (u, v) found in
          complete_found-written env parts u v server server' r alone
            (record { owns = owns; by_id = keyed context u owns.upload }) k
