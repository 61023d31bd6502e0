-- ===== src/Scan/Owner.antt =====
-- What a worker writes after it lost its lease, and when a video's preparation begins.
use voice_verse_ai.Common.{
  ◌≡◌, ◌≢◌, refl, ◌∙◌, ◌⊎◌, some, eq_iff, text_eq_iff, All-map, arith, Bool, true, false,
  Bool-cases, inl, inr, ◌==◌, ◌++◌, String, List, [], ◌∷◌, All, Result, ok, err,
}
use voice_verse_ai.Scan.Rows.{
  ScanStatus, queued, running, clean, infected, error, status_eq, Attempt, Video, ScanResult,
  is_running_with, update_many, finish_data, fail_data, claim_where, claim_data,
}
use voice_verse_ai.Scan.Job.{
  Store, Job, ScanEnv, claim_attempt, finish, fail, handle_error, has_mismatch, scan_claimed,
}

update_many-none {ℓ} :
    {A : Type ℓ} (p : A → Bool) (f : A → A) (xs : List A)
    → All (λ a. p a ≡ false) xs
    → update_many p f xs ≡ (xs, 0)
unfolding update_many
update_many-none p f [] h = refl
update_many-none p f (x ∷ xs) (h, hs) = rw (h, update_many) (rw (update_many-none p f xs hs) refl)

-- No attempt of the id both runs and has the worker's token: it is in another state, or another worker,
-- or none, holds it.
abbrev pub HasLost : ScanEnv → String → Store → Type 0
HasLost env id store =
    All (λ (a : Attempt). (a.id ≢ id) ⊎ ((a.status ≢ running) ⊎ (a.lease_token ≢ some env.token)))
      store.attempts

is_running-status : (s : ScanStatus) → status_eq s running ≡ true → s ≡ running
unfolding status_eq
is_running-status running h = refl
is_running-status queued h = cc h
is_running-status clean h = cc h
is_running-status infected h = cc h
is_running-status error h = cc h

is_running_with-eq :
    (id token : String) (a : Attempt)
    → is_running_with id token a ≡ true
    → (a.id ≡ id) × (a.lease_token ≡ some token) × (a.status ≡ running)
unfolding is_running_with
is_running_with-eq id token a h = (
  ground (arith, eq_iff a.id id),
  (text_eq_iff a.lease_token (some token)).0 (ground arith),
  is_running-status a.status (ground arith),
)

HasLost-where :
    (env : ScanEnv) (id : String) (store : Store)
    → HasLost env id store
    → All (λ a. is_running_with id env.token a ≡ false) store.attempts
HasLost-where env id store lost = All-map (λ a h. passed_over a h) store.attempts lost
  where
    passed_over :
        (a : Attempt)
        → (a.id ≢ id) ⊎ ((a.status ≢ running) ⊎ (a.lease_token ≢ some env.token))
        → is_running_with id env.token a ≡ false
    passed_over a h = elim (Bool-cases (is_running_with id env.token a)) [
      | inr other ↦ other
      | inl held ↦
          (let (same, token, runs) = is_running_with-eq id env.token a held in
            absurd (elim h [ inl n ↦ n same | inr (inl n) ↦ n runs | inr (inr n) ↦ n token ]))
    ]

finish-lost :
    (env : ScanEnv) (id : String) (video : Video) (result : ScanResult) (sha : String)
    (store : Store)
    → HasLost env id store
    → finish env id video result sha store ≡ (store, false)
unfolding finish
finish-lost env id video result sha store h =
    rw
      (
        update_many-none (is_running_with id env.token) (finish_data env.completed_at result)
            store.attempts (HasLost-where env id store h),
        finish,
      )
      refl

fail-lost :
    (env : ScanEnv) (id : String) (video : Video) (code : String) (will_retry : Bool)
    (store : Store)
    → HasLost env id store
    → fail env id video code will_retry store ≡ (store, false)
unfolding fail
fail-lost env id video code will_retry store h =
    rw
      (
        update_many-none (is_running_with id env.token) (fail_data env.completed_at code will_retry)
            store.attempts (HasLost-where env id store h),
        fail,
      )
      refl

handle_error-lost :
    (env : ScanEnv) (job : Job) (video : Video) (attempt : Attempt) (name : String) (store : Store)
    → HasLost env attempt.id (env.before_fail store)
    → handle_error env job video attempt name store ≡ (env.before_fail store, ok tt)
unfolding handle_error
handle_error-lost env job video attempt name store h =
    rw (fail-lost env attempt.id video _ _ (env.before_fail store) h, handle_error) refl

-- A worker that has claimed an attempt and finds, whatever its scan gave, that the attempt is no longer
-- running under its token - another worker has claimed it again, or it has ended - changes nothing, not
-- even another worker's lease or verdict, and takes the delivery as done; where no other worker writes
-- while it looks.
pub scan_claimed-lost :
    (env : ScanEnv) (job : Job) (video : Video) (attempt : Attempt)
    (outcome : Result String (ScanResult × String)) (store : Store)
    → env.before_finish store ≡ store
    → env.before_fail store ≡ store
    → HasLost env attempt.id store
    → scan_claimed env job video attempt outcome store ≡ (store, ok tt)
unfolding scan_claimed
scan_claimed-lost env job video attempt (err name) store still quiet h =
    handle_error-lost env job video attempt name store (rw quiet h) ∙ rw quiet refl
scan_claimed-lost env job video attempt (ok (result, sha)) store still quiet h =
    elim (Bool-cases (has_mismatch video.sha256 sha)) [
      | inl e ↦ rw (e, scan_claimed) (given_up "SourceChecksumMismatch")
      | inr e ↦
          rw (e, scan_claimed)
            (rw (still, scan_claimed)
              (rw (finish-lost env attempt.id video result sha store h, scan_claimed)
                (given_up "Error")))
    ]
  where
    given_up : (name : String) → handle_error env job video attempt name store ≡ (store, ok tt)
    given_up name = handle_error-lost env job video attempt name store (rw quiet h) ∙ rw quiet refl

-- Other workers' writes in between begin no preparation.
pub record PreparesNone (env : ScanEnv) : Type 0 where
  pub before_claim : (s : Store) → (env.before_claim s).prepared ≡ s.prepared
  pub before_finish : (s : Store) → (env.before_finish s).prepared ≡ s.prepared
  pub before_fail : (s : Store) → (env.before_fail s).prepared ≡ s.prepared

pub fail-prepared :
    (env : ScanEnv) (id : String) (video : Video) (code : String) (will_retry : Bool)
    (store : Store)
    → (fail env id video code will_retry store).0.prepared ≡ store.prepared
unfolding fail
fail-prepared env id video code will_retry store =
    elim (Bool-cases (
      (update_many (is_running_with id env.token) (fail_data env.completed_at code will_retry)
        store.attempts).1
      == 1)) [ inl e ↦ rw (e, fail) refl | inr e ↦ rw (e, fail) refl ]

pub claim_attempt-prepared :
    (env : ScanEnv) (recovering : Bool) (video : Video) (read : Attempt) (store : Store)
    → (claim_attempt env recovering video read store).0.prepared ≡ store.prepared
unfolding claim_attempt
claim_attempt-prepared env recovering video read store =
    elim (Bool-cases (
      (update_many (claim_where recovering read env.now)
        (claim_data recovering read env.now env.lease_seconds env.token env.worker_id)
        store.attempts).1
      == 1)) [ inl e ↦ rw (e, claim_attempt) refl | inr e ↦ rw (e, claim_attempt) refl ]

pub finish-prepared :
    (env : ScanEnv) (id : String) (video : Video) (result : ScanResult) (sha : String)
    (store : Store)
    → ((finish env id video result sha store).0.prepared ≡ store.prepared)
      ⊎ ((result.is_infected ≡ false)
          × ((finish env id video result sha store).1 ≡ true)
          × ((finish env id video result sha store).0.prepared ≡ store.prepared ++ video.id ∷ []))
unfolding finish
finish-prepared env id video result sha store =
    elim (Bool-cases (
      (update_many (is_running_with id env.token) (finish_data env.completed_at result)
        store.attempts).1
      == 1)) [
        | inr e ↦ inl (rw (e, finish) refl)
        | inl e ↦ elim (Bool-cases result.is_infected) [
          | inl f ↦ inl (rw (e, finish) (rw (f, finish) refl))
          | inr f ↦ inr (f, rw (e, finish) refl, rw (e, finish) (rw (f, finish) refl))
        ]
      ]
