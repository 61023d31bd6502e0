-- ===== src/Ingest/Rows.antt =====
-- `findUnique`, `findFirst` and `update` of a table.
use voice_verse_ai.Common.{
  ◌≡◌, refl, Bool, true, inl, inr, none, some, List, [], ◌∷◌, ◌++◌, Bool-cases,
}
use voice_verse_ai.Ingest.Tables.{find, update}

module _ {ℓ} {A : Type ℓ} (p : A → Bool) where
  pub find-passes : (xs : List A) {x : A} → find p xs ≡ some x → p x ≡ true
  unfolding find
  find-passes [] e = cc e
  find-passes (y ∷ ys) {x} e = elim (Bool-cases (p y)) [
    | inl t ↦ cc (t, (rw t at e))
    | inr f ↦ find-passes ys (rw f at e)
  ]

  pub find-append_new :
      (xs : List A) (y : A) → find p xs ≡ none → p y ≡ true → find p (xs ++ y ∷ []) ≡ some y
  unfolding find
  find-append_new [] y h t = rw t refl
  find-append_new (x ∷ xs) y h t = elim (Bool-cases (p x)) [
    | inl e ↦ cc (rw e at h)
    | inr e ↦ rw e (find-append_new xs y (rw e at h) t)
  ]

  pub find-append_old :
      (xs : List A) (y x : A) → find p xs ≡ some x → find p (xs ++ y ∷ []) ≡ some x
  unfolding find
  find-append_old [] y x h = cc h
  find-append_old (z ∷ zs) y x h = elim (Bool-cases (p z)) [
    | inl e ↦ rw e (rw e at h)
    | inr e ↦ rw e (find-append_old zs y x (rw e at h))
  ]

  -- A row is found after an update that covers it and keeps what the search reads.
  pub find-update :
      (q : A → Bool) (f : A → A)
      → ((a : A) → p (f a) ≡ p a)
      → ((a : A) → p a ≡ true → q a ≡ true)
      → (xs : List A) {x : A} → find p xs ≡ some x
      → find p (update q f xs) ≡ some (f x)
  unfolding find update
  find-update q f keeps covered [] e = cc e
  find-update q f keeps covered (y ∷ ys) {x} e = elim (Bool-cases (p y)) [
    | inl t ↦ rw (covered y t, keeps y, t) (cc (rw t at e))
    | inr t ↦
        let rest = find-update q f keeps covered ys (rw t at e) in
        elim (Bool-cases (q y)) [ inl u ↦ rw (u, keeps y, t) rest | inr u ↦ rw (u, t) rest ]
  ]
