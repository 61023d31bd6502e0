-- ===== src/ReadBudget/Bounds.antt =====
-- What the read budget admits, over every sequence of its operations.
use voice_verse_ai.Common.{
  ℕ, zero, suc, ◌+◌, ◌-◌, ◌≤◌, ◌≡◌, refl, false, Bool-cases, inl, inr, if◌then◌else◌, List, [], ◌∷◌,
  ◌++◌, arith,
}
use voice_verse_ai.ReadBudget.{
  Reservation, ReadBudget, new_read_budget, acquire, set_released, release,
}

-- The bytes of the reservations that are not released.
unfoldable pub outstanding : List Reservation → ℕ
outstanding [] = 0
outstanding (r ∷ rs) = (if r.released then 0 else r.size_bytes) + outstanding rs

-- What the readers of one worker can do to its budget.
pub data Reachable (capacity : ℕ) : ReadBudget → Type 0 where
  started : Reachable capacity (new_read_budget capacity)
  acquired :
      (size : ℕ) {b : ReadBudget} → Reachable capacity b → Reachable capacity (acquire size b).0
  released : (n : ℕ) {b : ReadBudget} → Reachable capacity b → Reachable capacity (release n b)

pub record IsAccounted (capacity : ℕ) (b : ReadBudget) : Type 0 where
  pub capacity_kept : b.capacity_bytes ≡ capacity
  pub accounted : b.admitted_bytes ≡ outstanding b.reservations
  pub bounded : b.admitted_bytes ≤ capacity

outstanding-append :
    (rs : List Reservation) (size : ℕ)
    → outstanding (rs ++ record { size_bytes = size; released = false } ∷ [])
      ≡ outstanding rs + size
unfolding outstanding
outstanding-append [] size = omega arith
outstanding-append (r ∷ rs) size = omega (arith, outstanding-append rs size)

outstanding-set_released :
    (n : ℕ) (rs : List Reservation)
    → outstanding (set_released n rs).0 + (set_released n rs).1 ≡ outstanding rs
unfolding outstanding set_released
outstanding-set_released n [] = omega arith
outstanding-set_released zero (r ∷ rs) = ground arith
outstanding-set_released (suc n) (r ∷ rs) = omega (arith, outstanding-set_released n rs)

acquire-IsAccounted :
    (capacity size : ℕ) (b : ReadBudget)
    → IsAccounted capacity b
    → IsAccounted capacity (acquire size b).0
unfolding acquire
acquire-IsAccounted capacity size b h = record {
  capacity_kept = ground (arith, h.capacity_kept);
  accounted = ground (arith, h.accounted, outstanding-append b.reservations size);
  bounded = ground (arith, h.bounded, h.capacity_kept);
}

release-IsAccounted :
    (capacity n : ℕ) (b : ReadBudget) → IsAccounted capacity b → IsAccounted capacity (release n b)
unfolding release
release-IsAccounted capacity n b h = record {
  capacity_kept = h.capacity_kept;
  accounted = omega (arith, h.accounted, outstanding-set_released n b.reservations);
  bounded = omega (arith, h.bounded);
}

-- After any sequence of acquisitions, refused or granted, and of releases, repeated or not, the bytes
-- that count as admitted are those of the reservations that are not released, and never more than the
-- capacity.
pub reachable-IsAccounted :
    (capacity : ℕ) {b : ReadBudget} → Reachable capacity b → IsAccounted capacity b
unfolding new_read_budget outstanding
reachable-IsAccounted capacity started = record {
  capacity_kept = refl;
  accounted = refl;
  bounded = omega arith;
}
reachable-IsAccounted capacity (acquired size {b} r) =
    acquire-IsAccounted capacity size b (reachable-IsAccounted capacity r)
reachable-IsAccounted capacity (released n {b} r) =
    release-IsAccounted capacity n b (reachable-IsAccounted capacity r)

set_released_twice :
    (n : ℕ) (rs : List Reservation)
    → set_released n (set_released n rs).0 ≡ ((set_released n rs).0, 0)
unfolding set_released
set_released_twice n [] = refl
set_released_twice zero (r ∷ rs) = elim (Bool-cases r.released) [
  | inl e ↦ rw (e, set_released) refl
  | inr e ↦ rw (e, set_released) refl
]
set_released_twice (suc n) (r ∷ rs) = rw (set_released_twice n rs) refl

-- To release a reservation again changes nothing.
pub release_twice : (n : ℕ) (b : ReadBudget) → release n (release n b) ≡ release n b
unfolding release
release_twice n b =
    let left = b.admitted_bytes - (set_released n b.reservations).1 in
    let nothing : left - 0 ≡ left = omega arith in
    rw (set_released_twice n b.reservations) (rw nothing refl)
