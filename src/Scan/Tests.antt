-- ===== src/Scan/Tests.antt =====
-- Runs of the scan worker, and the theorems at concrete inputs.
use voice_verse_ai.Common.{◌≡◌, refl, true, false, none, some, [], ◌∷◌, ok, inr, arith}
use voice_verse_ai.Ingest.Tables.{find, update}
use voice_verse_ai.Scan.Rows.{Attempt, Video, ScanResult, queued, running, video_pending}
use voice_verse_ai.Scan.Job.{Store, Job, ScanEnv, scan_claimed, process_job}
use voice_verse_ai.Scan.Kept.{AreLeased, process_job-AreLeased, recover_expired_attempts-AreLeased}
use voice_verse_ai.Scan.Owner.{HasLost, scan_claimed-lost}
use voice_verse_ai.Scan.Found.{PreparesClean}
use voice_verse_ai.Scan.Prepared.{process_job-prepared}
use voice_verse_ai.Scan.Recovery.{recover_expired_attempts}

abbrev attempt : Attempt
attempt = record {
  id = "attempt";
  video_id = "video";
  status = queued;
  lease_token = none;
  leased_until = none;
  recovery_count = 0;
  started_at = none;
  completed_at = none;
  heartbeat_at = none;
  error_code = none;
  worker_id = none;
  engine_version = none;
  signature_version = none;
  finding_name = none;
}

abbrev video : Video
video = record {
  id = "video";
  organization_id = "org";
  storage_bucket = "media";
  storage_key = "key";
  sha256 = some "AB";
  is_uploaded = true;
  security_status = video_pending;
}

abbrev store : Store
store = record { attempts = attempt ∷ []; videos = video ∷ []; audit = []; prepared = [] }

abbrev job : Job
job = record {
  name = "scan-video";
  data' = some (record {
    attempt_id = "attempt";
    bucket = "media";
    key = "key";
    organization_id = "org";
    video_id = "video";
  });
  attempts = some 3;
  attempts_made = 0;
}

abbrev healthy : ScanResult
healthy = record {
  is_infected = false;
  finding_name = none;
  engine_version = some "1";
  signature_version = some "2";
}

abbrev env : ScanEnv
env = record {
  now = 1000;
  completed_at = 2000;
  lease_seconds = 60;
  token = "token";
  worker_id = "worker";
  scan = ok (healthy, "ab");
  before_claim = λ s. s;
  before_finish = λ s. s;
  before_fail = λ s. s;
}

scanned_clean : (process_job env job store).0.prepared ≡ "video" ∷ []
unfolding process_job find update
scanned_clean = refl

fresh-AreLeased : AreLeased store
fresh-AreLeased =
    (record { token = λ r. cc r; until = λ r. cc r; idle = λ n. refl; recovered = omega arith }, tt)

process_job-AreLeased_example : AreLeased (process_job env job store).0
process_job-AreLeased_example =
    process_job-AreLeased env
      (record { before_claim = λ s h. h; before_finish = λ s h. h; before_fail = λ s h. h }) job
      store fresh-AreLeased

recover_expired_attempts-AreLeased_example :
    AreLeased (recover_expired_attempts 25 9000 9001 60 (λ id. false) store []).0
recover_expired_attempts-AreLeased_example =
    recover_expired_attempts-AreLeased 25 9000 9001 60 (λ id. false) store [] fresh-AreLeased

-- Another worker has claimed the attempt again.
abbrev taken_over : Store
taken_over = record store {
  attempts =
      record attempt {
        status = running;
        lease_token = some "another";
        leased_until = some 90000;
        recovery_count = 1;
      }
      ∷ [];
}

taken_over-HasLost : HasLost env "attempt" taken_over
taken_over-HasLost = (inr (inr (λ e. cc e)), tt)

scan_claimed-lost_example :
    scan_claimed env job video attempt (ok (healthy, "ab")) taken_over ≡ (taken_over, ok tt)
scan_claimed-lost_example =
    scan_claimed-lost env job video attempt (ok (healthy, "ab")) taken_over refl refl
      taken_over-HasLost

process_job-prepared_example : PreparesClean env job store store (process_job env job store).0
process_job-prepared_example =
    process_job-prepared env
      (record { before_claim = λ s. refl; before_finish = λ s. refl; before_fail = λ s. refl }) job
      store
