-- ===== src/Common/Sort.antt =====
-- `Array.prototype.toSorted` with a comparator: the stable sort, written as insertion. For a
-- comparator that is an order the language's result is determined, and is this one.
use Prim.Native.Nat.{Ordering}
use mathlib.Core.Option.{some, none}
use mathlib.Core.Path.{subst, ◌≡◌, refl, ◌∙◌}
use mathlib.Core.Logic.{◌≢◌}
use mathlib.Core.List.{head?, List, [], ◌∷◌, Permᴰ}
use mathlib.Core.List.Permᴰ
use native.Mathlib.Omega.{arith}
use voice_verse_ai.Common.Lists.{All, All-map}

-- A comparator's sign.
abbrev pub Comparator {ℓ} : Type ℓ → Type ℓ
Comparator A = A → A → Ordering

-- `first || second` on signs
unfoldable pub or_else : Ordering → Ordering → Ordering
or_else Ordering.eq second = second
or_else first _ = first

unfoldable pub swap_order : Ordering → Ordering
swap_order Ordering.lt = Ordering.gt
swap_order Ordering.eq = Ordering.eq
swap_order Ordering.gt = Ordering.lt

module _ {ℓ} {A : Type ℓ} where
  -- `a` may stand before `b`.
  abbrev pub NotAfter : Comparator A → A → A → Type 0
  NotAfter cmp a b = cmp a b ≢ Ordering.gt

  pub record IsOrder (cmp : Comparator A) : Type ℓ where
    pub flip : (a b : A) → cmp a b ≡ swap_order (cmp b a)
    pub trans : (a b c : A) → NotAfter cmp a b → NotAfter cmp b c → NotAfter cmp a c

  unfoldable pub insert_by : Comparator A → A → List A → List A
  insert_by cmp x [] = x ∷ []
  insert_by cmp x (y ∷ ys) = elim (cmp x y) [
    | Ordering.gt ↦ y ∷ insert_by cmp x ys
    | _ ↦ x ∷ y ∷ ys
  ]

  unfoldable pub sort_by : Comparator A → List A → List A
  unfolding insert_by
  sort_by cmp [] = []
  sort_by cmp (x ∷ xs) = insert_by cmp x (sort_by cmp xs)

  abbrev pub IsSorted : Comparator A → List A → Type 0
  IsSorted cmp [] = Unit
  IsSorted cmp (x ∷ xs) = All (NotAfter cmp x) xs × IsSorted cmp xs

module _ {ℓ κ} {A : Type ℓ} (P : A → Type κ) (cmp : Comparator A) where
  pub All-insert_by : (x : A) (xs : List A) → P x → All P xs → All P (insert_by cmp x xs)
  unfolding insert_by
  All-insert_by x [] p h = (p, tt)
  All-insert_by x (y ∷ ys) p (q, h) =
      elim (cmp x y)
        as (λ o. All P (elim o [ Ordering.gt ↦ y ∷ insert_by cmp x ys | _ ↦ x ∷ y ∷ ys ])) [
          | Ordering.gt ↦ (q, All-insert_by x ys p h)
          | _ ↦ (p, (q, h))
        ]

  pub All-sort_by : (xs : List A) → All P xs → All P (sort_by cmp xs)
  unfolding sort_by
  All-sort_by [] h = tt
  All-sort_by (x ∷ xs) (p, h) = All-insert_by x (sort_by cmp xs) p (All-sort_by xs h)

pub All-of_perm {ℓ κ} :
    {A : Type ℓ} (P : A → Type κ) {xs ys : List A} → Permᴰ xs ys → All P xs → All P ys
All-of_perm P Permᴰ.nil h = tt
All-of_perm P (Permᴰ.cons e p) (h, hs) = (subst P e h, All-of_perm P p hs)
All-of_perm P (Permᴰ.swap e f) (h, (k, hs)) = (subst P f k, (subst P e h, hs))
All-of_perm P (Permᴰ.trans p q) h = All-of_perm P q (All-of_perm P p h)

-- The comparator ties only equal elements of the list.
abbrev pub AreUntied {ℓ} : {A : Type ℓ} → Comparator A → List A → Type ℓ
AreUntied cmp xs = All (λ a. All (λ b. cmp a b ≡ Ordering.eq → a ≡ b) xs) xs

module _ {ℓ} {A : Type ℓ} (cmp : Comparator A) where
  insert_by-perm : (x : A) (xs : List A) → Permᴰ (insert_by cmp x xs) (x ∷ xs)
  unfolding insert_by
  insert_by-perm x [] = Permᴰ.refl _
  insert_by-perm x (y ∷ ys) =
      elim (cmp x y)
        as (λ o.
          Permᴰ (elim o [ Ordering.gt ↦ y ∷ insert_by cmp x ys | _ ↦ x ∷ y ∷ ys ]) (x ∷ y ∷ ys)) [
            | Ordering.gt ↦
                Permᴰ.trans (Permᴰ.cons refl (insert_by-perm x ys)) (Permᴰ.swap refl refl)
            | _ ↦ Permᴰ.refl _
          ]

  pub sort_by-perm : (xs : List A) → Permᴰ (sort_by cmp xs) xs
  unfolding sort_by
  sort_by-perm [] = Permᴰ.refl _
  sort_by-perm (x ∷ xs) =
      Permᴰ.trans (insert_by-perm x (sort_by cmp xs)) (Permᴰ.cons refl (sort_by-perm xs))

  module _ (order : IsOrder cmp) where
    NotAfter-of_gt : (a b : A) → cmp a b ≡ Ordering.gt → NotAfter cmp b a
    unfolding swap_order
    NotAfter-of_gt a b h k = cc (order.flip a b, h, k)

    IsSorted-insert_by : (x : A) (xs : List A) → IsSorted cmp xs → IsSorted cmp (insert_by cmp x xs)
    unfolding insert_by
    IsSorted-insert_by x [] h = (tt, tt)
    IsSorted-insert_by x (y ∷ ys) (h, s) = go (cmp x y) refl (IsSorted-insert_by x ys s)
      where
        later : NotAfter cmp x y → All (NotAfter cmp x) (y ∷ ys)
        later p = (p, All-map (λ z q. order.trans x y z p q) ys h)

        go :
            (o : Ordering)
            → cmp x y ≡ o
            → IsSorted cmp (insert_by cmp x ys)
            → IsSorted cmp (elim o [ Ordering.gt ↦ y ∷ insert_by cmp x ys | _ ↦ x ∷ y ∷ ys ])
        go Ordering.gt e r = (All-insert_by (NotAfter cmp y) cmp x ys (NotAfter-of_gt x y e) h, r)
        go Ordering.lt e r = (later (λ k. cc (e, k)), (h, s))
        go Ordering.eq e r = (later (λ k. cc (e, k)), (h, s))

    pub IsSorted-sort_by : (xs : List A) → IsSorted cmp (sort_by cmp xs)
    unfolding sort_by
    IsSorted-sort_by [] = tt
    IsSorted-sort_by (x ∷ xs) = IsSorted-insert_by x (sort_by cmp xs) (IsSorted-sort_by xs)

    -- Inserting two elements in either order gives the same list, unless the comparator ties them.
    insert_by_comm :
        (x y : A) (zs : List A)
        → (cmp x y ≡ Ordering.eq → x ≡ y)
        → insert_by cmp x (insert_by cmp y zs) ≡ insert_by cmp y (insert_by cmp x zs)
    unfolding insert_by swap_order
    insert_by_comm x y [] tie = ground (arith, order.flip x y, tie)
    insert_by_comm x y (z ∷ zs) tie = ground (
      arith,
      order.flip x y,
      order.flip x z,
      order.flip y z,
      tie,
      order.trans x y z,
      order.trans y x z,
      order.trans x z y,
      order.trans y z x,
      order.trans z x y,
      order.trans z y x,
      insert_by_comm x y zs tie,
    )

    -- The sorted list does not depend on the order of the input, when the comparator ties only
    -- equal elements of it.
    pub sort_by_unique :
        (xs ys : List A) → Permᴰ xs ys → AreUntied cmp xs → sort_by cmp xs ≡ sort_by cmp ys
    unfolding sort_by
    sort_by_unique xs ys Permᴰ.nil tie = refl
    sort_by_unique xs ys (Permᴰ.cons {l₁ = l} {l₂ = m} e p) (_, ties) =
        cc (e, sort_by_unique l m p (All-map (λ a h. h.1) l ties))
    sort_by_unique xs ys (Permᴰ.swap {a = a} {b = b} {l = l} e f) (tie, _) =
        cc (e, f, insert_by_comm a b (sort_by cmp l) tie.1.0)
    sort_by_unique xs ys (Permᴰ.trans {l₂ = m} p q) tie =
        sort_by_unique xs m p tie
        ∙ sort_by_unique m ys q (
            All-of_perm _ p
              (All-map (λ a h. All-of_perm (λ b. cmp a b ≡ Ordering.eq → a ≡ b) p h) xs tie))

-- What holds of the elements in sorted order holds of the list's.
pub All-of_sort_by {ℓ κ} :
    {A : Type ℓ} (P : A → Type κ) (cmp : Comparator A) (xs : List A)
    → All P (sort_by cmp xs)
    → All P xs
All-of_sort_by P cmp xs h = All-of_perm P (sort_by-perm cmp xs) h

-- The first element in sorted order stands before none of the list's elements wrongly.
pub head-sort_by {ℓ} :
    {A : Type ℓ} (cmp : Comparator A) (order : IsOrder cmp) (xs : List A) {x : A}
    → head? (sort_by cmp xs) ≡ some x
    → All (NotAfter cmp x) xs
head-sort_by {A} cmp order xs {x} e =
    All-of_sort_by (NotAfter cmp x) cmp xs (go (sort_by cmp xs) e (IsSorted-sort_by cmp order xs))
  where
    refl_order : (y : A) → NotAfter cmp y y
    refl_order y k = unfold swap_order in cc (order.flip y y, k)

    go : (ys : List A) → head? ys ≡ some x → IsSorted cmp ys → All (NotAfter cmp x) ys
    go [] h s = tt
    go (y ∷ ys) h s =
        let p : y ≡ x = cc h in subst (λ z. All (NotAfter cmp z) (y ∷ ys)) p (refl_order y, s.0)

-- The first element in sorted order is one of the list's.
pub head-sort_by-All {ℓ κ} :
    {A : Type ℓ} (P : A → Type κ) (cmp : Comparator A) (xs : List A) {x : A}
    → head? (sort_by cmp xs) ≡ some x
    → All P xs
    → P x
head-sort_by-All {A} P cmp xs {x} e h = go (sort_by cmp xs) e (All-sort_by P cmp xs h)
  where
    go : (ys : List A) → head? ys ≡ some x → All P ys → P x
    go [] e k = cc e
    go (y ∷ ys) e k = let p : y ≡ x = cc e in subst P p k.0

pub head-sort_by-none {ℓ} :
    {A : Type ℓ} (cmp : Comparator A) (xs : List A) → head? (sort_by cmp xs) ≡ none → xs ≡ []
unfolding sort_by insert_by
head-sort_by-none {A} cmp [] e = refl
head-sort_by-none {A} cmp (x ∷ xs) e = absurd (go (sort_by cmp xs) e)
  where
    go : (ys : List A) → head? (insert_by cmp x ys) ≡ none → ⊥
    go [] h = cc h
    go (y ∷ ys) h = ground (arith)
