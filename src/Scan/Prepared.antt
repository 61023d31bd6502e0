-- ===== src/Scan/Prepared.antt =====
-- When a delivery begins the preparation of a video.
use voice_verse_ai.Common.{
  ◌≡◌, refl, ap, ◌∙◌, false, Bool-cases, inl, inr, ◌++◌, String, [], ◌∷◌, Result, ok, err,
}
use voice_verse_ai.Scan.Rows.{Attempt, Video, ScanResult}
use voice_verse_ai.Scan.Job.{
  Store, Job, ScanEnv, ScanError, Decision, leave, claim, claim_attempt, finish, handle_error,
  has_mismatch, scan_claimed, run_decision, decide, process_job,
}
use voice_verse_ai.Scan.Found.{
  IsSourceOf, PreparesClean, has_mismatch-IsChecksumOf, decide-IsSourceOf,
}
use voice_verse_ai.Scan.Owner.{PreparesNone, fail-prepared, claim_attempt-prepared, finish-prepared}

module _ (env : ScanEnv) (others : PreparesNone env) (job : Job) where
  handle_error-prepared :
      (video : Video) (attempt : Attempt) (name : String) (store : Store)
      → (handle_error env job video attempt name store).0.prepared ≡ store.prepared
  unfolding handle_error
  handle_error-prepared video attempt name store =
      fail-prepared env attempt.id video _ _ (env.before_fail store) ∙ others.before_fail store

  scan_claimed-prepared :
      (read : Store) (video : Video) (attempt : Attempt)
      (outcome : Result String (ScanResult × String)) (store : Store)
      → IsSourceOf job read video
      → env.scan ≡ outcome
      → PreparesClean env job read store (scan_claimed env job video attempt outcome store).0
  unfolding scan_claimed
  scan_claimed-prepared read video attempt (err name) store source scanned =
      inl (handle_error-prepared video attempt name store)
  scan_claimed-prepared read video attempt (ok (result, sha)) store source scanned =
      elim (Bool-cases (has_mismatch video.sha256 sha)) [
        | inl e ↦ inl (
            rw (e, scan_claimed)
              (handle_error-prepared video attempt "SourceChecksumMismatch" store))
        | inr e ↦ elim (finish-prepared env attempt.id video result sha (env.before_finish store)) [
          | inl same ↦ inl (unclean result sha e (same ∙ others.before_finish store))
          | inr (healthy, won, begun) ↦ inr (
            video,
            source,
            (result, sha, scanned, healthy, has_mismatch-IsChecksumOf video.sha256 sha e),
            rw (e, scan_claimed)
                (rw (won, scan_claimed)
                  (begun ∙ ap (λ p. p ++ video.id ∷ []) (others.before_finish store))),
          )
        ]
      ]
    where
      unclean :
          (result : ScanResult) (sha : String)
          → has_mismatch video.sha256 sha ≡ false
          → (finish env attempt.id video result sha (env.before_finish store)).0.prepared
            ≡ store.prepared
          → (scan_claimed env job video attempt (ok (result, sha)) store).0.prepared
            ≡ store.prepared
      unclean result sha e same =
          let finished = finish env attempt.id video result sha (env.before_finish store) in
          elim (Bool-cases finished.1) [
            | inl f ↦ rw (e, scan_claimed) (rw (f, scan_claimed) same)
            | inr f ↦
                rw (e, scan_claimed)
                  (rw (f, scan_claimed)
                    (handle_error-prepared video attempt "Error" finished.0 ∙ same))
          ]

  run_decision-prepared :
      (store : Store) (decision : Result ScanError Decision)
      → decide env.now job store ≡ decision
      → PreparesClean env job store store (run_decision env job store decision).0
  unfolding run_decision
  run_decision-prepared store (err e) decided = inl refl
  run_decision-prepared store (ok leave) decided = inl refl
  run_decision-prepared store (ok (claim recovering video attempt)) decided =
      let claimed = claim_attempt env recovering video attempt (env.before_claim store) in
      let same =
        claim_attempt-prepared env recovering video attempt (env.before_claim store)
        ∙ others.before_claim store in
      elim (Bool-cases claimed.1) [
        | inr e ↦ inl (rw (e, run_decision) same)
        | inl e ↦
            elim (scan_claimed-prepared store video attempt env.scan claimed.0
              (decide-IsSourceOf env.now job store decided) refl) [
                | inl kept ↦ inl (rw (e, run_decision) (kept ∙ same))
                | inr (v, source, found, begun) ↦
                    inr (
                      v,
                      source,
                      found,
                      rw (e, run_decision) (begun ∙ ap (λ p. p ++ v.id ∷ []) same),
                    )
              ]
      ]

  -- A delivery begins the preparation of at most one video: of a row that the table has, with the id,
  -- organization, bucket and key of the delivery's data, and only where the scan that it ran reported no
  -- infection and a checksum of the same bytes as the one that this row states, if it states one; where
  -- other workers' writes in between begin none.
  pub process_job-prepared :
      (store : Store) → PreparesClean env job store store (process_job env job store).0
  unfolding process_job
  process_job-prepared store = run_decision-prepared store (decide env.now job store) refl
