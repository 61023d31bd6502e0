-- ===== src/Scan/Kept.antt =====
-- What every delivery, heartbeat and recovery keeps of the scan attempts.
use voice_verse_ai.Common.{
  ℕ, Bool, Bool-cases, Option-cases, inl, inr, ◌==◌, String, List, [], ◌∷◌, All, Result, ok, err,
}
use voice_verse_ai.Scan.Rows.{
  Attempt, Video, ScanResult, is_running_with, update_many, claim_where, claim_data, heartbeat_data,
  finish_data, fail_data, timeout_where, timeout_data,
}
use voice_verse_ai.Scan.Job.{
  Store, Job, ScanEnv, ScanError, Decision, leave, claim, claim_attempt, heartbeat, finish, fail,
  handle_error, has_mismatch, scan_claimed, run_decision, decide, process_job,
}
use voice_verse_ai.Scan.Recovery.{
  Event, time_out, time_out_all, exhausted_attempts, recover_expired_attempts,
}
use voice_verse_ai.Scan.Leases.{
  IsLeased, All-update_many, claim_data-IsLeased, heartbeat_data-IsLeased, finish_data-IsLeased,
  fail_data-IsLeased, timeout_data-IsLeased,
}

abbrev pub AreLeased : Store → Type 0
AreLeased store = All IsLeased store.attempts

-- Other workers' writes keep the leases.
pub record IsFair (env : ScanEnv) : Type 0 where
  pub before_claim : (s : Store) → AreLeased s → AreLeased (env.before_claim s)
  pub before_finish : (s : Store) → AreLeased s → AreLeased (env.before_finish s)
  pub before_fail : (s : Store) → AreLeased s → AreLeased (env.before_fail s)

claim_attempt-AreLeased :
    (env : ScanEnv) (recovering : Bool) (video : Video) (read : Attempt) (store : Store)
    → AreLeased store
    → AreLeased (claim_attempt env recovering video read store).0
unfolding claim_attempt
claim_attempt-AreLeased env recovering video read store h =
    let kept =
      All-update_many IsLeased (claim_where recovering read env.now)
        (claim_data recovering read env.now env.lease_seconds env.token env.worker_id)
        (λ a e k.
          claim_data-IsLeased recovering read env.now env.lease_seconds env.token env.worker_id a e
            k)
        store.attempts h in
    elim (Bool-cases (
      (update_many (claim_where recovering read env.now)
        (claim_data recovering read env.now env.lease_seconds env.token env.worker_id)
        store.attempts).1
      == 1)) [ inl e ↦ rw (e, claim_attempt) kept | inr e ↦ rw (e, claim_attempt) kept ]

pub heartbeat-AreLeased :
    (id token : String) (now lease_seconds : ℕ) (store : Store)
    → AreLeased store
    → AreLeased (heartbeat id token now lease_seconds store)
unfolding heartbeat
heartbeat-AreLeased id token now lease_seconds store h =
    All-update_many IsLeased (is_running_with id token) (heartbeat_data now lease_seconds)
      (λ a e k. heartbeat_data-IsLeased now lease_seconds a k) store.attempts h

finish-AreLeased :
    (env : ScanEnv) (id : String) (video : Video) (result : ScanResult) (sha : String)
    (store : Store)
    → AreLeased store
    → AreLeased (finish env id video result sha store).0
unfolding finish
finish-AreLeased env id video result sha store h =
    elim (Bool-cases (
      (update_many (is_running_with id env.token) (finish_data env.completed_at result)
        store.attempts).1
      == 1)) [
        | inl e ↦
            rw (e, finish)
              (All-update_many IsLeased (is_running_with id env.token)
                (finish_data env.completed_at result)
                (λ a _ k. finish_data-IsLeased env.completed_at result a k) store.attempts h)
        | inr e ↦ rw (e, finish) h
      ]

fail-AreLeased :
    (env : ScanEnv) (id : String) (video : Video) (code : String) (will_retry : Bool)
    (store : Store)
    → AreLeased store
    → AreLeased (fail env id video code will_retry store).0
unfolding fail
fail-AreLeased env id video code will_retry store h =
    let kept =
      All-update_many IsLeased (is_running_with id env.token)
        (fail_data env.completed_at code will_retry)
        (λ a _ k. fail_data-IsLeased env.completed_at code will_retry a k) store.attempts h in
    elim (Bool-cases (
      (update_many (is_running_with id env.token) (fail_data env.completed_at code will_retry)
        store.attempts).1
      == 1)) [ inl e ↦ rw (e, fail) kept | inr e ↦ rw (e, fail) kept ]

module _ (env : ScanEnv) (fair : IsFair env) (job : Job) where
  handle_error-AreLeased :
      (video : Video) (attempt : Attempt) (name : String) (store : Store)
      → AreLeased store
      → AreLeased (handle_error env job video attempt name store).0
  unfolding handle_error
  handle_error-AreLeased video attempt name store h =
      fail-AreLeased env attempt.id video _ _ (env.before_fail store) (fair.before_fail store h)

  scan_claimed-AreLeased :
      (video : Video) (attempt : Attempt) (outcome : Result String (ScanResult × String))
      (store : Store)
      → AreLeased store
      → AreLeased (scan_claimed env job video attempt outcome store).0
  unfolding scan_claimed
  scan_claimed-AreLeased video attempt (err name) store h =
      handle_error-AreLeased video attempt name store h
  scan_claimed-AreLeased video attempt (ok (result, sha)) store h =
      let finished = finish env attempt.id video result sha (env.before_finish store) in
      let kept =
        finish-AreLeased env attempt.id video result sha (env.before_finish store)
          (fair.before_finish store h) in
      elim (Bool-cases (has_mismatch video.sha256 sha)) [
        | inl e ↦
            rw (e, scan_claimed)
              (handle_error-AreLeased video attempt "SourceChecksumMismatch" store h)
        | inr e ↦ elim (Bool-cases finished.1) [
          | inl f ↦ rw (e, f, scan_claimed) kept
          | inr f ↦
              rw (e, f, scan_claimed) (handle_error-AreLeased video attempt "Error" finished.0 kept)
        ]
      ]

  run_decision-AreLeased :
      (store : Store) (decision : Result ScanError Decision)
      → AreLeased store
      → AreLeased (run_decision env job store decision).0
  unfolding run_decision
  run_decision-AreLeased store (err e) h = h
  run_decision-AreLeased store (ok leave) h = h
  run_decision-AreLeased store (ok (claim recovering video attempt)) h =
      let claimed = claim_attempt env recovering video attempt (env.before_claim store) in
      let kept =
        claim_attempt-AreLeased env recovering video attempt (env.before_claim store)
          (fair.before_claim store h) in
      elim (Bool-cases claimed.1) [
        | inl e ↦
            rw (e, run_decision) (scan_claimed-AreLeased video attempt env.scan claimed.0 kept)
        | inr e ↦ rw (e, run_decision) kept
      ]

  -- A delivery, whatever it holds and however its scan ends, keeps that every attempt has a token and
  -- a time of expiry while it runs, no token otherwise, and at most one recovery, where the writes of
  -- other workers in between keep it.
  pub process_job-AreLeased :
      (store : Store) → AreLeased store → AreLeased (process_job env job store).0
  unfolding process_job
  process_job-AreLeased store h = run_decision-AreLeased store (decide env.now job store) h

time_out-AreLeased :
    (now completed_at : ℕ) (read : Attempt) (token : String) (store : Store)
    → AreLeased store
    → AreLeased (time_out now completed_at read token store).0
unfolding time_out
time_out-AreLeased now completed_at read token store h =
    let kept =
      All-update_many IsLeased (timeout_where read.id token now) (timeout_data completed_at)
        (λ a _ k. timeout_data-IsLeased completed_at a k) store.attempts h in
    elim (Bool-cases (
      (update_many (timeout_where read.id token now) (timeout_data completed_at) store.attempts).1
      == 1)) [ inl e ↦ rw (e, time_out) kept | inr e ↦ rw (e, time_out) kept ]

time_out_all-AreLeased :
    (now completed_at : ℕ) (reads : List Attempt) (store : Store)
    → AreLeased store
    → AreLeased (time_out_all now completed_at reads store).0
unfolding time_out_all
time_out_all-AreLeased now completed_at [] store h = h
time_out_all-AreLeased now completed_at (read ∷ reads) store h =
    elim (Option-cases read.lease_token) [
      | inl e ↦ rw (e, time_out_all) (time_out_all-AreLeased now completed_at reads store h)
      | inr (token, e) ↦
          rw (e, time_out_all)
            (time_out_all-AreLeased now completed_at reads
              (time_out now completed_at read token store).0
              (time_out-AreLeased now completed_at read token store h))
    ]

-- The recovery keeps the same.
pub recover_expired_attempts-AreLeased :
    (limit now completed_at seconds : ℕ) (is_locked : String → Bool) (store : Store)
    (events : List Event)
    → AreLeased store
    → AreLeased (recover_expired_attempts limit now completed_at seconds is_locked store events).0
unfolding recover_expired_attempts
recover_expired_attempts-AreLeased limit now completed_at seconds is_locked store events h =
    time_out_all-AreLeased now completed_at (exhausted_attempts limit now store) store h
