-- ===== src/Scan/Leases.antt =====
-- The scan attempts under every sequence of the workers' updates.
use voice_verse_ai.Common.{
  ℕ, ◌≤◌, ◌≡◌, refl, ◌≢◌, Bool, true, false, Bool-cases, inl, inr, none, some, String, List, [],
  ◌∷◌, All, arith,
}
use voice_verse_ai.Scan.Rows.{
  running, Attempt, ScanResult, update_many, claim_where, claim_data, heartbeat_data, finish_data,
  fail_data, timeout_data,
}

-- An attempt has a lease just while it runs, and was recovered at most once.
pub record IsLeased (a : Attempt) : Type 0 where
  pub token : (a.status ≡ running) → (t : String) × (a.lease_token ≡ some t)
  pub until : (a.status ≡ running) → (t : ℕ) × (a.leased_until ≡ some t)
  pub idle : a.status ≢ running → a.lease_token ≡ none
  pub recovered : a.recovery_count ≤ 1

module _ {A : Type 0} (P : A → Type 0) (p : A → Bool) (f : A → A) where
  pub All-update_many :
      ((a : A) → p a ≡ true → P a → P (f a))
      → (xs : List A) → All P xs
      → All P (update_many p f xs).0
  unfolding update_many
  All-update_many keeps [] h = tt
  All-update_many keeps (x ∷ xs) (h, hs) = elim (Bool-cases (p x)) [
    | inl e ↦ rw (e, update_many) (keeps x e h, All-update_many keeps xs hs)
    | inr e ↦ rw (e, update_many) (h, All-update_many keeps xs hs)
  ]

pub claim_data-IsLeased :
    (recovering : Bool) (read : Attempt) (now lease_seconds : ℕ) (token worker : String)
    (a : Attempt)
    → claim_where recovering read now a ≡ true
    → IsLeased a
    → IsLeased (claim_data recovering read now lease_seconds token worker a)
unfolding claim_where claim_data
claim_data-IsLeased true read now lease_seconds token worker a e h = record {
  token = λ r. (token, refl);
  until = λ r. (_, refl);
  idle = λ n. absurd (n refl);
  recovered = ground arith;
}
claim_data-IsLeased false read now lease_seconds token worker a e h = record {
  token = λ r. (token, refl);
  until = λ r. (_, refl);
  idle = λ n. absurd (n refl);
  recovered = h.recovered;
}

pub heartbeat_data-IsLeased :
    (now lease_seconds : ℕ) (a : Attempt)
    → IsLeased a
    → IsLeased (heartbeat_data now lease_seconds a)
unfolding heartbeat_data
heartbeat_data-IsLeased now lease_seconds a h = record {
  token = h.token;
  until = λ r. (_, refl);
  idle = h.idle;
  recovered = h.recovered;
}

pub finish_data-IsLeased :
    (now : ℕ) (result : ScanResult) (a : Attempt) → IsLeased a → IsLeased (finish_data now result a)
unfolding finish_data
finish_data-IsLeased now result a h = record {
  token = λ r. absurd (ground arith);
  until = λ r. absurd (ground arith);
  idle = λ n. refl;
  recovered = h.recovered;
}

pub fail_data-IsLeased :
    (now : ℕ) (code : String) (will_retry : Bool) (a : Attempt)
    → IsLeased a
    → IsLeased (fail_data now code will_retry a)
unfolding fail_data
fail_data-IsLeased now code will_retry a h = record {
  token = λ r. absurd (ground arith);
  until = λ r. absurd (ground arith);
  idle = λ n. refl;
  recovered = h.recovered;
}

pub timeout_data-IsLeased : (now : ℕ) (a : Attempt) → IsLeased a → IsLeased (timeout_data now a)
unfolding timeout_data
timeout_data-IsLeased now a h = record {
  token = λ r. absurd (ground arith);
  until = λ r. absurd (ground arith);
  idle = λ n. refl;
  recovered = h.recovered;
}
