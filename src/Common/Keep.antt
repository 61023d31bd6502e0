-- ===== src/Common/Keep.antt =====
-- Laws of `filter` with a Boolean test.
use mathlib.Core.Path.{◌≡◌, refl}
use mathlib.Core.Bool.{Bool, true, false, ◌&&◌}
use mathlib.Core.Logic.{◌⊎◌, inl, inr}
use mathlib.Core.List.{List, [], ◌∷◌, ◌++◌}
use native.Mathlib.Omega.{arith}
use voice_verse_ai.Common.Tests.{Bool-cases}
use voice_verse_ai.Common.Lists.{All, keep}

module _ {ℓ} {A : Type ℓ} where
  pub keep-append : (p : A → Bool) (xs ys : List A) → keep p (xs ++ ys) ≡ keep p xs ++ keep p ys
  keep-append p [] ys = refl
  keep-append p (x ∷ xs) ys = ground (arith, keep-append p xs ys)

  pub keep-keep : (p q : A → Bool) (xs : List A) → keep p (keep q xs) ≡ keep (λ x. q x && p x) xs
  keep-keep p q [] = refl
  keep-keep p q (x ∷ xs) = ground (arith, keep-keep p q xs)

  -- The tests need to agree on the elements of the list only.
  pub keep-ext : (p q : A → Bool) (xs : List A) → All (λ x. p x ≡ q x) xs → keep p xs ≡ keep q xs
  keep-ext p q [] h = refl
  keep-ext p q (x ∷ xs) (h, hs) = ground (arith, keep-ext p q xs hs)

  pub keep-eq-nil : (p : A → Bool) (xs : List A) → All (λ x. p x ≡ false) xs → keep p xs ≡ []
  keep-eq-nil p [] h = refl
  keep-eq-nil p (x ∷ xs) (h, hs) = ground (arith, keep-eq-nil p xs hs)

  pub keep-eq_self : (p : A → Bool) (xs : List A) → All (λ x. p x ≡ true) xs → keep p xs ≡ xs
  keep-eq_self p [] h = refl
  keep-eq_self p (x ∷ xs) (h, hs) = ground (arith, keep-eq_self p xs hs)

module _ {ℓ κ} {A : Type ℓ} (P : A → Type κ) (p : A → Bool) where
  -- What holds of the elements that pass holds of every element, or the element does not pass.
  pub All-of_keep : (xs : List A) → All P (keep p xs) → All (λ x. (p x ≡ false) ⊎ P x) xs
  All-of_keep [] h = tt
  All-of_keep (x ∷ xs) h = elim (Bool-cases (p x)) [
    | inl e ↦ let (q, qs) = rw (e, keep) at h in (inr q, All-of_keep xs qs)
    | inr e ↦ (inl e, All-of_keep xs (rw (e, keep) at h))
  ]

  -- An element that is left has passed.
  pub All-keep_passed : (xs : List A) → All P xs → All (λ x. (p x ≡ true) × P x) (keep p xs)
  All-keep_passed [] h = tt
  All-keep_passed (x ∷ xs) (h, hs) = elim (Bool-cases (p x)) [
    | inl e ↦ rw (e, keep) ((e, h), All-keep_passed xs hs)
    | inr e ↦ rw (e, keep) (All-keep_passed xs hs)
  ]

pub All-of_keep-eq-nil {ℓ} :
    {A : Type ℓ} (p : A → Bool) (xs : List A) → keep p xs ≡ [] → All (λ x. p x ≡ false) xs
All-of_keep-eq-nil p [] h = tt
All-of_keep-eq-nil p (x ∷ xs) h = elim (Bool-cases (p x)) [
  | inl e ↦ cc (rw (e, keep) at h)
  | inr e ↦ (e, All-of_keep-eq-nil p xs (rw (e, keep) at h))
]
