-- ===== src/Localization/Keyed.antt =====
-- Tables whose rows are found by a key of their own, and what `update` and an insertion keep of it.
use text.Mathlib.TextPositions.{eq_refl}
use voice_verse_ai.Common.{
  ◌≡◌, refl, sym, subst, ap, String, Bool, true, false, inl, inr, Option, none, some, List, [], ◌∷◌,
  ◌++◌, str_eq, eq_iff, if◌then◌else◌, Bool-cases, All, All-map, All-append,
}
use voice_verse_ai.Ingest.Tables.{find, update}
use voice_verse_ai.Ingest.Rows.{find-append_new}
use voice_verse_ai.Ingest.Create.{is_some}

module _ {ℓ} {A : Type ℓ} where
  pub is_some-false : (o : Option A) → is_some o ≡ false → o ≡ none
  unfolding is_some
  is_some-false none h = refl
  is_some-false (some a) h = cc h

  pub find-append_left :
      (p : A → Bool) (xs ys : List A) {x : A} → find p xs ≡ some x → find p (xs ++ ys) ≡ some x
  unfolding find
  find-append_left p [] ys h = cc h
  find-append_left p (z ∷ zs) ys h = elim (Bool-cases (p z)) [
    | inl e ↦ rw e (rw e at h)
    | inr e ↦ rw e (find-append_left p zs ys (rw e at h))
  ]

  -- What is found is an element.
  pub find-All {κ} :
      (P : A → Type κ) (p : A → Bool) (xs : List A) {x : A} → All P xs → find p xs ≡ some x → P x
  unfolding find
  find-All P p [] h e = cc e
  find-All P p (y ∷ ys) {x} (h, hs) e = elim (Bool-cases (p y)) [
    | inl t ↦ (let same : y ≡ x = cc (rw t at e) in subst P same h)
    | inr f ↦ find-All P p ys hs (rw f at e)
  ]

  -- Where one search finds an element that another looks for, the other finds one too.
  pub find-exists :
      (p q : A → Bool) (xs : List A) {x : A}
      → find q xs ≡ some x
      → p x ≡ true
      → (y : A) × (find p xs ≡ some y)
  unfolding find
  find-exists p q [] e t = cc e
  find-exists p q (y ∷ ys) {x} e t = elim (Bool-cases (p y)) [
    | inl u ↦ (y, rw u refl)
    | inr u ↦ elim (Bool-cases (q y)) [
      | inl v ↦ (let same : y ≡ x = cc (rw v at e) in cc (same, t, u))
      | inr v ↦ (let (z, found) = find-exists p q ys (rw v at e) t in (z, rw u found))
    ]
  ]

  -- An update that keeps what the search reads changes the row that is found.
  pub find-update_any :
      (p q : A → Bool) (f : A → A)
      → ((a : A) → p (f a) ≡ p a)
      → (xs : List A) {x : A} → find p xs ≡ some x
      → find p (update q f xs) ≡ some (if q x then f x else x)
  unfolding find update
  find-update_any p q f keeps [] e = cc e
  find-update_any p q f keeps (y ∷ ys) {x} e = elim (Bool-cases (q y)) [
    | inl u ↦ elim (Bool-cases (p y)) [
      | inl t ↦ (let same : y ≡ x = cc (rw t at e) in rw (u, keeps y, t) (rw (sym same, u) refl))
      | inr t ↦ rw (u, keeps y, t) (find-update_any p q f keeps ys (rw t at e))
    ]
    | inr u ↦ elim (Bool-cases (p y)) [
      | inl t ↦ (let same : y ≡ x = cc (rw t at e) in rw (u, t) (rw (sym same, u) refl))
      | inr t ↦ rw (u, t) (find-update_any p q f keeps ys (rw t at e))
    ]
  ]

  pub All-update {κ} :
      (P : A → Type κ) (q : A → Bool) (f : A → A) (xs : List A)
      → All (λ x. P (if q x then f x else x)) xs
      → All P (update q f xs)
  unfolding update
  All-update P q f [] h = tt
  All-update P q f (x ∷ xs) (h, hs) = (h, All-update P q f xs hs)

  -- By cases on whether the row is changed.
  pub if-cases {κ} :
      (P : A → Type κ) (b : Bool) (x y : A)
      → (b ≡ true → P x)
      → (b ≡ false → P y)
      → P (if b then x else y)
  if-cases P true x y h k = h refl
  if-cases P false x y h k = k refl

module _ {ℓ} {A : Type ℓ} (key : A → String) where
  abbrev pub has_key : String → A → Bool
  has_key k x = str_eq (key x) k

  -- Each row is found by its key: no earlier row has it.
  abbrev pub AreKeyed : List A → Type ℓ
  AreKeyed xs = All (λ x. find (has_key (key x)) xs ≡ some x) xs

  pub AreKeyed-update :
      (q : A → Bool) (f : A → A) (xs : List A)
      → ((a : A) → key (f a) ≡ key a)
      → AreKeyed xs
      → AreKeyed (update q f xs)
  AreKeyed-update q f xs keeps keyed =
      All-update _ q f xs (All-map (λ x found. go x found) xs keyed)
    where
      kept : (x : A) → key (if q x then f x else x) ≡ key x
      kept x = if-cases (λ y. key y ≡ key x) (q x) (f x) x (λ _. keeps x) (λ _. refl)

      go :
          (x : A)
          → find (has_key (key x)) xs ≡ some x
          → find (has_key (key (if q x then f x else x))) (update q f xs)
            ≡ some (if q x then f x else x)
      go x found =
          subst (λ k. find (has_key k) (update q f xs) ≡ some (if q x then f x else x))
            (sym (kept x))
            (find-update_any (has_key (key x)) q f (λ a. ap (λ k. str_eq k (key x)) (keeps a)) xs
              found)

  pub AreKeyed-append :
      (xs : List A) (x : A)
      → find (has_key (key x)) xs ≡ none
      → AreKeyed xs
      → AreKeyed (xs ++ x ∷ [])
  AreKeyed-append xs x fresh keyed =
      All-append _ xs (x ∷ [])
        (All-map (λ y found. find-append_left (has_key (key y)) xs (x ∷ []) found) xs keyed)
        (find-append_new (has_key (key x)) xs x fresh (eq_refl (key x)), tt)

  -- Rows with one key are one row.
  pub AreKeyed-same :
      (p : A → Bool) (xs : List A) {x : A}
      → AreKeyed xs
      → find p xs ≡ some x
      → All (λ y. str_eq (key y) (key x) ≡ true → y ≡ x) xs
  AreKeyed-same p xs {x} keyed found =
      All-map
        (λ y at_y same.
          let e : key y ≡ key x = (eq_iff (key y) (key x)).0 same in
          cc (
            subst (λ k. find (has_key k) xs ≡ some y) e at_y,
            find-All (λ z. find (has_key (key z)) xs ≡ some z) p xs keyed found,
          ))
        xs keyed
