-- ===== src/Ingest/Once.antt =====
-- The scan attempts and outbox requests that completions queue.
use voice_verse_ai.Common.{
  ◌≤◌, ◌≡◌, refl, ◌∙◌, Bool, true, Option, none, some, String, List, [], ◌∷◌, ◌++◌, keep, length,
  length-append, Bool-cases, Option-cases, inl, inr, eq_iff, arith,
}
use voice_verse_ai.Common.Keep.{keep-append}
use voice_verse_ai.Ingest.Types.{AccessContext, Video, Upload, QueuedScan, ScanRequest, Server}
use voice_verse_ai.Ingest.Tables.{find}
use voice_verse_ai.Ingest.Complete.{
  CompleteEnv, scan_of, upsert_scan, has_request_key, upsert_request, queue_scan, write_rows,
  finish_upload, finalize_upload,
}

find-keep-none {ℓ} : {A : Type ℓ} (p : A → Bool) (xs : List A) → find p xs ≡ none → keep p xs ≡ []
unfolding find
find-keep-none p [] h = refl
find-keep-none p (x ∷ xs) h = elim (Bool-cases (p x)) [
  | inl e ↦ cc (rw e at h)
  | inr e ↦ rw (e, keep) (find-keep-none p xs (rw e at h))
]

-- At most one first scan attempt for each video, and one request for each key.
pub record IsQueuedOnce (server : Server) : Type 0 where
  pub scans : (video_id : String) → length (keep (scan_of video_id) server.scans) ≤ 1
  pub requests : (key : String) → length (keep (has_request_key key) server.requests) ≤ 1

-- A row added under a test that no row passed.
keep-append_once {ℓ} :
    {A : Type ℓ} (p q : A → Bool) (xs : List A) (x : A)
    → (p x ≡ true → keep p xs ≡ keep q xs)
    → keep q xs ≡ []
    → length (keep p xs) ≤ 1
    → length (keep p (xs ++ x ∷ [])) ≤ 1
keep-append_once p q xs x same none_yet few =
    rw (keep-append p xs (x ∷ [])) (elim (Bool-cases (p x)) [
      | inl e ↦ rw (same e ∙ none_yet) (rw (e, keep) (omega arith))
      | inr e ↦ rw (e, keep) (omega (arith, few, length-append (keep p xs) []))
    ])

upsert_scan-once :
    (scan_id video_id : String) (scans : List QueuedScan)
    → ((v : String) → length (keep (scan_of v) scans) ≤ 1)
    → (v : String) → length (keep (scan_of v) (upsert_scan scan_id video_id scans).0) ≤ 1
unfolding upsert_scan
upsert_scan-once scan_id video_id scans few v =
    elim (Option-cases (find (scan_of video_id) scans)) [
      | inl e ↦
          rw (e, upsert_scan)
            (keep-append_once (scan_of v) (scan_of video_id) scans
              (record { id = scan_id; video_id = video_id; attempt_number = 1 })
              (λ t. rw ((eq_iff video_id v).0 (ground arith)) refl)
              (find-keep-none (scan_of video_id) scans e) (few v))
      | inr (s, e) ↦ rw (e, upsert_scan) (few v)
    ]

upsert_request-once :
    (request : ScanRequest) (requests : List ScanRequest)
    → ((k : String) → length (keep (has_request_key k) requests) ≤ 1)
    → (k : String) → length (keep (has_request_key k) (upsert_request request requests)) ≤ 1
unfolding upsert_request
upsert_request-once request requests few k =
    elim (Option-cases (find (has_request_key request.deduplication_key) requests)) [
      | inl e ↦
          rw (e, upsert_request)
            (keep-append_once (has_request_key k) (has_request_key request.deduplication_key)
              requests request (λ t. rw ((eq_iff request.deduplication_key k).0 t) refl)
              (find-keep-none (has_request_key request.deduplication_key) requests e) (few k))
      | inr (s, e) ↦ rw (e, upsert_request) (few k)
    ]

finish_upload-IsQueuedOnce :
    (env : CompleteEnv) (context : AccessContext) (server written : Server) (u : Option Upload)
    (v : Option Video)
    → IsQueuedOnce server
    → IsQueuedOnce written
    → IsQueuedOnce (finish_upload env context server written u v).0
unfolding finish_upload queue_scan
finish_upload-IsQueuedOnce env context server written (some u) (some v) once once' = record {
  scans = upsert_scan-once env.scan_id v.id written.scans once'.scans;
  requests = upsert_request-once _ written.requests once'.requests;
}
finish_upload-IsQueuedOnce env context server written (some u) none once once' = once
finish_upload-IsQueuedOnce env context server written none (some v) once once' = once
finish_upload-IsQueuedOnce env context server written none none once once' = once

-- However often uploads are completed, each video has at most one first scan attempt, and each
-- deduplication key at most one request in the outbox: the transaction keeps it, if it fails too.
pub finalize_upload-IsQueuedOnce :
    (env : CompleteEnv) (context : AccessContext) (upload : Upload) (video : Video)
    (etag : Option String) (server : Server)
    → IsQueuedOnce server
    → IsQueuedOnce (finalize_upload env context upload video etag server).0
unfolding finalize_upload
finalize_upload-IsQueuedOnce env context upload video etag server once =
    finish_upload-IsQueuedOnce env context server (write_rows env.now upload video etag server) _ _
      once (record { scans = once.scans; requests = once.requests })
