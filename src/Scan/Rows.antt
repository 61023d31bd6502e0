-- ===== src/Scan/Rows.antt =====
-- The rows of the scan worker, and each `updateMany` on a scan attempt: its `where` and its `data`.
use Prim.Native.String.{String}
use voice_verse_ai.Common.{
  ℕ, ◌+◌, ◌*◌, Bool, true, false, ◌&&◌, ltb, if◌then◌else◌, text_eq, str_eq, Option, none, some,
  List, [], ◌∷◌,
}

pub data ScanStatus : Type 0 where
  queued running clean infected error : ScanStatus

pub data SecurityStatus : Type 0 where
  video_pending video_scanning video_clean video_infected video_error : SecurityStatus

pub record Attempt : Type 0 where
  pub id : String
  pub video_id : String
  pub status : ScanStatus
  pub lease_token : Option String
  pub leased_until : Option ℕ
  pub recovery_count : ℕ
  pub started_at : Option ℕ
  pub completed_at : Option ℕ
  pub heartbeat_at : Option ℕ
  pub error_code : Option String
  pub worker_id : Option String
  pub engine_version : Option String
  pub signature_version : Option String
  pub finding_name : Option String

pub record Video : Type 0 where
  pub id : String
  pub organization_id : String
  pub storage_bucket : String
  pub storage_key : String
  pub sha256 : Option String
  pub is_uploaded : Bool
  pub security_status : SecurityStatus

-- What the scanner reports.
pub record ScanResult : Type 0 where
  pub is_infected : Bool
  pub finding_name : Option String
  pub engine_version : Option String
  pub signature_version : Option String

abbrev pub max_scan_lease_recoveries : ℕ
max_scan_lease_recoveries = 1

unfoldable pub status_eq : ScanStatus → ScanStatus → Bool
status_eq queued queued = true
status_eq running running = true
status_eq clean clean = true
status_eq infected infected = true
status_eq error error = true
status_eq _ _ = false

-- `{ lt: now }` on a column that may be null
unfoldable pub is_before : Option ℕ → ℕ → Bool
is_before none now = false
is_before (some t) now = ltb t now

unfoldable pub is_running_with : String → String → Attempt → Bool
unfolding text_eq status_eq
is_running_with id token a =
    str_eq a.id id && text_eq a.lease_token (some token) && status_eq a.status running

-- The rows that pass are changed; and how many they are.
unfoldable pub update_many {ℓ} : {A : Type ℓ} → (A → Bool) → (A → A) → List A → List A × ℕ
update_many p f [] = ([], 0)
update_many p f (x ∷ xs) =
    let rest = update_many p f xs in
    if p x then (f x ∷ rest.0, rest.1 + 1) else (x ∷ rest.0, rest.1)

-- `recoveringExpiredLease`, of the attempt that was read.
unfoldable pub has_expired_lease : ℕ → Attempt → Bool
unfolding status_eq is_before
has_expired_lease now a =
    status_eq a.status running
    && (if text_eq a.lease_token none then false else true)
    && is_before a.leased_until now
    && ltb a.recovery_count max_scan_lease_recoveries

-- The condition of the claim, from the attempt that was read.
unfoldable pub claim_where : Bool → Attempt → ℕ → Attempt → Bool
unfolding status_eq is_before text_eq
claim_where true read now a =
    str_eq a.id read.id
    && text_eq a.lease_token read.lease_token
    && is_before a.leased_until now
    && ltb a.recovery_count max_scan_lease_recoveries
    && status_eq a.status running
claim_where false read now a = str_eq a.id read.id && status_eq a.status queued

unfoldable pub or_time : Option ℕ → ℕ → Option ℕ
or_time none t = some t
or_time (some s) t = some s

unfoldable pub claim_data : Bool → Attempt → ℕ → ℕ → String → String → Attempt → Attempt
unfolding or_time
claim_data recovering read now lease_seconds token worker_id a = record a {
  completed_at = none;
  error_code = none;
  heartbeat_at = some now;
  lease_token = some token;
  leased_until = some (now + lease_seconds * 1000);
  recovery_count = if recovering then a.recovery_count + 1 else a.recovery_count;
  started_at = or_time read.started_at now;
  status = running;
  worker_id = some worker_id;
}

unfoldable pub heartbeat_data : ℕ → ℕ → Attempt → Attempt
heartbeat_data now lease_seconds a = record a {
  heartbeat_at = some now;
  leased_until = some (now + lease_seconds * 1000);
}

unfoldable pub finish_data : ℕ → ScanResult → Attempt → Attempt
finish_data now result a = record a {
  completed_at = some now;
  engine_version = result.engine_version;
  finding_name = if result.is_infected then result.finding_name else none;
  heartbeat_at = some now;
  lease_token = none;
  leased_until = none;
  signature_version = result.signature_version;
  status = if result.is_infected then infected else clean;
}

unfoldable pub fail_data : ℕ → String → Bool → Attempt → Attempt
fail_data now error_code will_retry a = record a {
  completed_at = if will_retry then none else some now;
  error_code = some error_code;
  heartbeat_at = some now;
  lease_token = none;
  leased_until = none;
  status = if will_retry then queued else error;
}

-- The timeout of a lease that was recovered as often as allowed.
unfoldable pub timeout_where : String → String → ℕ → Attempt → Bool
unfolding is_before is_running_with
timeout_where id token now a = is_running_with id token a && is_before a.leased_until now

unfoldable pub timeout_data : ℕ → Attempt → Attempt
timeout_data now a = record a {
  completed_at = some now;
  error_code = some "MEDIA_SCAN_LEASE_EXPIRED";
  heartbeat_at = some now;
  lease_token = none;
  leased_until = none;
  status = error;
}
