-- ===== src/Localization/History/Order.antt =====
-- Revisions in the order in which they were added, and what a history reads of them.
use text.Mathlib.TextPositions.{compare_refl}
use mathlib.Core.List.{reverse, reverse-cons, append-nil}
use voice_verse_ai.Common.{
  ◌<◌, ◌≡◌, refl, sym, ◌∙◌, ap, subst, some, List, [], ◌∷◌, ◌++◌, keep, All, All-map, All-append,
  All-append_left, All-append_right, Ordering, arith,
}
use voice_verse_ai.Common.Sort.{insert_by, sort_by, or_else}
use voice_verse_ai.Common.Keep.{keep-append, keep-eq_self, keep-eq-nil}
use voice_verse_ai.Localization.Types.{Revision}
use voice_verse_ai.Localization.History.{newest_first, history_where, is_before}
use voice_verse_ai.Localization.History.Cursors.{cursor_of}

module _ {ℓ} {P : Type ℓ} where
  -- Later revisions have greater numbers.
  abbrev pub IsIncreasing : List (Revision P) → Type 0
  IsIncreasing [] = Unit
  IsIncreasing (r ∷ rs) = All (λ s. r.revision_number < s.revision_number) rs × IsIncreasing rs

  newer_first :
      (a b : Revision P) → a.revision_number < b.revision_number → newest_first a b ≡ Ordering.gt
  unfolding newest_first or_else
  newer_first a b h = ground arith

  insert_last :
      (x : Revision P) (ys : List (Revision P))
      → All (λ y. x.revision_number < y.revision_number) ys
      → insert_by newest_first x ys ≡ ys ++ x ∷ []
  unfolding insert_by
  insert_last x [] h = refl
  insert_last x (y ∷ ys) (h, hs) =
      rw (newer_first x y h, insert_by) (ap (λ zs. y ∷ zs) (insert_last x ys hs))

  All-reverse : (Q : Revision P → Type 0) (xs : List (Revision P)) → All Q xs → All Q (reverse xs)
  All-reverse Q [] h = tt
  All-reverse Q (x ∷ xs) (h, hs) =
      subst (All Q) (sym (reverse-cons x xs))
        (All-append Q (reverse xs) (x ∷ []) (All-reverse Q xs hs) (h, tt))

  -- Newest first is the order of adding turned round.
  pub sort_by-newest_first :
      (xs : List (Revision P)) → IsIncreasing xs → sort_by newest_first xs ≡ reverse xs
  unfolding sort_by
  sort_by-newest_first [] h = refl
  sort_by-newest_first (x ∷ xs) (h, hs) =
      ap (insert_by newest_first x) (sort_by-newest_first xs hs)
      ∙ insert_last x (reverse xs) (All-reverse _ xs h)
      ∙ sym (reverse-cons x xs)

  pub IsIncreasing-split :
      (older : List (Revision P)) (x : Revision P) (newer : List (Revision P))
      → IsIncreasing (older ++ x ∷ newer)
      → All (λ o. o.revision_number < x.revision_number) older
        × All (λ s. x.revision_number < s.revision_number) newer
  IsIncreasing-split [] x newer (h, _) = (tt, h)
  IsIncreasing-split (o ∷ older) x newer (h, hs) =
      let (olders, newers) = IsIncreasing-split older x newer hs in
      (
        (
          (All-append_right (λ s. o.revision_number < s.revision_number) older (x ∷ newer) h).0,
          olders,
        ),
        newers,
      )

  pub IsIncreasing-left :
      (older newer : List (Revision P)) → IsIncreasing (older ++ newer) → IsIncreasing older
  IsIncreasing-left [] newer h = tt
  IsIncreasing-left (o ∷ older) newer (h, hs) = (
    All-append_left (λ s. o.revision_number < s.revision_number) older newer h,
    IsIncreasing-left older newer hs,
  )

  -- Behind the cursor of a revision are the older ones.
  pub keep-history_where :
      (older : List (Revision P)) (x : Revision P) (newer : List (Revision P))
      → IsIncreasing (older ++ x ∷ newer)
      → keep (history_where (some (cursor_of x))) (older ++ x ∷ newer) ≡ older
  unfolding history_where is_before
  keep-history_where older x newer h =
      let (olders, newers) = IsIncreasing-split older x newer h in
      let seen = history_where (some (cursor_of x)) in
      keep-append seen older (x ∷ newer)
      ∙ ap (λ ys. keep seen older ++ ys)
          (keep-eq-nil seen (x ∷ newer)
            (ground (arith, compare_refl x.id), All-map (λ y newer. ground arith) newer newers))
      ∙ append-nil (keep seen older)
      ∙ keep-eq_self seen older (All-map (λ y older. ground arith) older olders)
