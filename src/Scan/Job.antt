-- ===== src/Scan/Job.antt =====
-- `processJob` and the heartbeat of the scan worker. What other workers write before each transaction
-- is an argument; so are the storage's and the scanner's answer.
use Prim.Native.String.{String}
use mathlib.Core.List.{◌++◌}
use voice_verse_ai.Common.{
  ℕ, zero, suc, ◌+◌, ◌-◌, ◌*◌, Bool, true, false, not, ◌&&◌, ◌||◌, ltb, leb, ◌==◌, if◌then◌else◌,
  str_eq, Option, none, some, List, [], ◌∷◌, Result, ok, err,
}
use voice_verse_ai.Common.Text.{is_empty}
use voice_verse_ai.Ingest.Tables.{find, update}
use voice_verse_ai.Ingest.Patterns.{codes}
use voice_verse_ai.Ingest.Checks.{codes_eq}
use voice_verse_ai.Scan.Rows.{
  ScanStatus, queued, clean, infected, SecurityStatus, video_pending, video_scanning, video_clean,
  video_infected, video_error, Attempt, Video, ScanResult, status_eq, is_running_with, update_many,
  has_expired_lease, claim_where, claim_data, heartbeat_data, finish_data, fail_data,
}
mod Checksum
unfoldable pub use Checksum.*

-- The tables; the audit's actions; and the videos whose source preparation was begun.
pub record Store : Type 0 where
  pub attempts : List Attempt
  pub videos : List Video
  pub audit : List (String × String)
  pub prepared : List String

pub record JobData : Type 0 where
  pub attempt_id : String
  pub bucket : String
  pub key : String
  pub organization_id : String
  pub video_id : String

-- A delivery of the queue; its data is none where the schema refuses it.
pub record Job : Type 0 where
  pub name : String
  pub data' : Option JobData
  pub attempts : Option ℕ
  pub attempts_made : ℕ

-- What the worker finds: the clock, its lease, the answer of the scan (an error's name, or the result
-- with the computed checksum), and what other workers write in between.
pub record ScanEnv : Type 0 where
  pub now : ℕ
  pub completed_at : ℕ
  pub lease_seconds : ℕ
  pub token : String
  pub worker_id : String
  pub scan : Result String (ScanResult × String)
  pub before_claim : Store → Store
  pub before_finish : Store → Store
  pub before_fail : Store → Store

pub data ScanError : Type 0 where
  unsupported_job invalid_data video_not_found attempt_not_found : ScanError
  scan_failed : (name : String) → ScanError

-- What the reads decide.
pub data Decision : Type 0 where
  leave : Decision
  claim : (recovering : Bool) → Video → Attempt → Decision

unfoldable pub is_final : ScanStatus → Bool
is_final clean = true
is_final infected = true
is_final _ = false

unfoldable pub is_final_video : SecurityStatus → Bool
is_final_video video_clean = true
is_final_video video_infected = true
is_final_video _ = false

abbrev pub is_source : JobData → Video → Bool
is_source d v =
    str_eq v.id d.video_id
    && str_eq v.organization_id d.organization_id
    && str_eq v.storage_bucket d.bucket
    && str_eq v.storage_key d.key

abbrev pub is_attempt_of : JobData → Video → Attempt → Bool
is_attempt_of d v a = str_eq a.id d.attempt_id && str_eq a.video_id v.id

unfoldable pub decide_attempt : ℕ → Video → Option Attempt → Result ScanError Decision
unfolding is_final status_eq has_expired_lease
decide_attempt now video none = err attempt_not_found
decide_attempt now video (some attempt) =
    let recovering = has_expired_lease now attempt in
    if is_final attempt.status
    then ok leave
    else if not recovering && not (status_eq attempt.status queued)
    then ok leave
    else ok (claim recovering video attempt)

unfoldable pub decide_video : ℕ → JobData → Store → Option Video → Result ScanError Decision
unfolding is_final_video decide_attempt
decide_video now d store none = err video_not_found
decide_video now d store (some video) =
    if is_final_video video.security_status
    then ok leave
    else decide_attempt now video (find (is_attempt_of d video) store.attempts)

unfoldable pub decide_data : ℕ → Store → Option JobData → Result ScanError Decision
unfolding decide_video
decide_data now store none = err invalid_data
decide_data now store (some d) = decide_video now d store (find (is_source d) store.videos)

unfoldable pub decide : ℕ → Job → Store → Result ScanError Decision
unfolding decide_data
decide now job store =
    if str_eq job.name "scan-video" then decide_data now store job.data' else err unsupported_job

abbrev pub set_security : String → SecurityStatus → List Video → List Video
set_security id status videos =
    update (λ v. str_eq v.id id) (λ v. record v { security_status = status }) videos

-- The transaction of the claim.
unfoldable pub claim_attempt : ScanEnv → Bool → Video → Attempt → Store → Store × Bool
unfolding update_many claim_where claim_data
claim_attempt env recovering video read store =
    let updated =
      update_many (claim_where recovering read env.now)
        (claim_data recovering read env.now env.lease_seconds env.token env.worker_id)
        store.attempts in
    if updated.1 == 1
    then (
      record store {
        attempts = updated.0;
        videos = set_security video.id video_scanning store.videos;
      },
      true,
    )
    else (record store { attempts = updated.0 }, false)

-- One tick of `startHeartbeat`.
unfoldable pub heartbeat : String → String → ℕ → ℕ → Store → Store
unfolding update_many is_running_with heartbeat_data
heartbeat id token now lease_seconds store = record store {
  attempts =
      (update_many (is_running_with id token) (heartbeat_data now lease_seconds) store.attempts).0;
}

-- The transaction of the verdict; it is undone where the lease is lost.
unfoldable pub finish : ScanEnv → String → Video → ScanResult → String → Store → Store × Bool
unfolding update_many is_running_with finish_data
finish env id video result sha256 store =
    let updated =
      update_many (is_running_with id env.token) (finish_data env.completed_at result)
        store.attempts in
    let security = if result.is_infected then video_infected else video_clean in
    if updated.1 == 1
    then (
      record store {
        attempts = updated.0;
        videos =
            update (λ v. str_eq v.id video.id)
              (λ v. record v { sha256 = some sha256; security_status = security }) store.videos;
        audit =
            store.audit
            ++ (if result.is_infected then "media.scan.infected" else "media.scan.clean", video.id)
              ∷ [];
        prepared = if result.is_infected then store.prepared else store.prepared ++ video.id ∷ [];
      },
      true,
    )
    else (store, false)

-- The transaction of `catch`.
unfoldable pub fail : ScanEnv → String → Video → String → Bool → Store → Store × Bool
unfolding update_many is_running_with fail_data
fail env id video error_code will_retry store =
    let updated =
      update_many (is_running_with id env.token) (fail_data env.completed_at error_code will_retry)
        store.attempts in
    if updated.1 == 1
    then (
      record store {
        attempts = updated.0;
        videos =
            set_security video.id (if will_retry then video_pending else video_error) store.videos;
      },
      true,
    )
    else (record store { attempts = updated.0 }, false)

unfoldable pub slice : ℕ → String → String
slice zero s = String.[]
slice (suc n) String.[] = String.[]
slice (suc n) (String.◌∷◌ c s) = String.◌∷◌ c (slice n s)

-- `configuredAttempts`
unfoldable pub configured_attempts : Option ℕ → ℕ
configured_attempts none = 1
configured_attempts (some n) = n

unfoldable pub is_permanent : String → Bool
is_permanent name = str_eq name "ClamdStreamLimitExceeded" || str_eq name "SourceChecksumMismatch"

-- The `catch`: quiet where the lease is lost or the error is permanent, else thrown on.
unfoldable pub handle_error :
    ScanEnv → Job → Video → Attempt → String → Store → Store × Result ScanError (Unit {0})
unfolding is_permanent fail slice configured_attempts
handle_error env job video attempt name store =
    let permanent = is_permanent name in
    let will_retry =
      not permanent && ltb (job.attempts_made + 1) (configured_attempts job.attempts) in
    let persisted = fail env attempt.id video (slice 100 name) will_retry (env.before_fail store) in
    (persisted.0, if not persisted.1 || permanent then ok tt else err (scan_failed name))

-- The `try`, once the attempt is claimed. A lost lease is thrown as an error whose name is `Error`.
unfoldable pub scan_claimed :
    ScanEnv
    → Job
    → Video
    → Attempt
    → Result String (ScanResult × String)
    → Store
    → Store × Result ScanError (Unit {0})
unfolding handle_error has_mismatch finish
scan_claimed env job video attempt (err name) store = handle_error env job video attempt name store
scan_claimed env job video attempt (ok (result, sha256)) store =
    let finished = finish env attempt.id video result sha256 (env.before_finish store) in
    if has_mismatch video.sha256 sha256
    then handle_error env job video attempt "SourceChecksumMismatch" store
    else if finished.1
    then (finished.0, ok tt)
    else handle_error env job video attempt "Error" finished.0

unfoldable pub run_decision :
    ScanEnv → Job → Store → Result ScanError Decision → Store × Result ScanError (Unit {0})
unfolding claim_attempt scan_claimed
run_decision env job store (err e) = (store, err e)
run_decision env job store (ok leave) = (store, ok tt)
run_decision env job store (ok (claim recovering video attempt)) =
    let claimed = claim_attempt env recovering video attempt (env.before_claim store) in
    if claimed.1 then scan_claimed env job video attempt env.scan claimed.0 else (claimed.0, ok tt)

unfoldable pub process_job : ScanEnv → Job → Store → Store × Result ScanError (Unit {0})
unfolding decide run_decision
process_job env job store = run_decision env job store (decide env.now job store)
