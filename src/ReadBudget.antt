-- ===== src/ReadBudget.antt =====
-- `apps/api/src/modules/speech-analysis/infrastructure/speech-manifest-read-budget.service.ts`: the
-- admission of manifest reads. A reservation is the closure that `acquire` returns, by its place in
-- the order of acquisition, with its `released` flag.
use voice_verse_ai.Common.{
  ℕ, zero, suc, ◌+◌, ◌-◌, ◌≤◌, ◌<◌, ◌≡◌, refl, Bool, true, false, ◌||◌, ltb, leb, ◌==◌,
  if◌then◌else◌, Option, none, some, List, [], ◌∷◌, ◌++◌, length, Result, ok, err, arith,
}
pub mod Bounds
mod Tests

pub record Reservation : Type 0 where
  pub size_bytes : ℕ
  pub released : Bool

pub record ReadBudget : Type 0 where
  pub capacity_bytes : ℕ
  pub admitted_bytes : ℕ
  pub reservations : List Reservation

pub data BudgetError : Type 0 where
  manifest_size_invalid memory_budget_exhausted : BudgetError

unfoldable pub new_read_budget : ℕ → ReadBudget
new_read_budget capacity = record {
  capacity_bytes = capacity;
  admitted_bytes = 0;
  reservations = [];
}

abbrev pub max_safe_integer : ℕ
max_safe_integer = 9007199254740991

-- The difference of the guard may be negative, so it is written as a sum.
unfoldable pub acquire : ℕ → ReadBudget → ReadBudget × Result BudgetError ℕ
acquire size budget =
    if ltb max_safe_integer size || size == 0
    then (budget, err manifest_size_invalid)
    else if ltb budget.capacity_bytes (budget.admitted_bytes + size)
    then (budget, err memory_budget_exhausted)
    else (
      record budget {
        admitted_bytes = budget.admitted_bytes + size;
        reservations = budget.reservations ++ record { size_bytes = size; released = false } ∷ [];
      },
      ok (length budget.reservations),
    )

-- The flags after a release, and what is subtracted.
unfoldable pub set_released : ℕ → List Reservation → List Reservation × ℕ
set_released n [] = ([], 0)
set_released zero (r ∷ rs) =
    if r.released then (r ∷ rs, 0) else (record r { released = true } ∷ rs, r.size_bytes)
set_released (suc n) (r ∷ rs) = let rest = set_released n rs in (r ∷ rest.0, rest.1)

unfoldable pub release : ℕ → ReadBudget → ReadBudget
unfolding set_released
release n budget =
    let changed = set_released n budget.reservations in
    record budget { admitted_bytes = budget.admitted_bytes - changed.1; reservations = changed.0 }
