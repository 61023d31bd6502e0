-- ===== src/Scenes/Order.antt =====
-- The comparator of `partitionLocalizationScenes`, and inputs in another order.
use mathlib.Core.List.{Permᴰ, foldl}
use voice_verse_ai.Common.{
  ◌<◌, ◌≡◌, ◌≢◌, ◌⊎◌, sym, subst, ap, List, [], ◌∷◌, All, All-map, Ordering, String, arith,
}
use voice_verse_ai.Common.Sort.{
  NotAfter, IsOrder, IsSorted, IsSorted-sort_by, swap_order, AreUntied, sort_by, sort_by_unique,
}
use voice_verse_ai.Scenes.Laws.{dialogues_of}
use voice_verse_ai.Scenes.Covered.{partition_scenes}
use voice_verse_ai.Scenes.{
  Dialogue, compare_dialogues, push_dialogue, partition_localization_scenes,
}

module _ (locale_compare : String → String → Ordering) (locale_order : IsOrder locale_compare) where
  compare_dialogues-flip :
      (a b : Dialogue)
      → compare_dialogues locale_compare a b ≡ swap_order (compare_dialogues locale_compare b a)
  unfolding compare_dialogues swap_order
  compare_dialogues-flip a b = ground (arith, locale_order.flip a.id b.id)

  compare_dialogues_trans :
      (a b c : Dialogue)
      → (compare_dialogues locale_compare a b ≡ Ordering.gt → ⊥)
      → (compare_dialogues locale_compare b c ≡ Ordering.gt → ⊥)
      → compare_dialogues locale_compare a c ≡ Ordering.gt
      → ⊥
  unfolding compare_dialogues
  compare_dialogues_trans a b c h k e = ground (arith, locale_order.trans a.id b.id c.id)

  pub compare_dialogues-IsOrder : IsOrder (compare_dialogues locale_compare)
  compare_dialogues-IsOrder = record {
    flip = compare_dialogues-flip;
    trans = λ a b c h k e. compare_dialogues_trans a b c h k e;
  }

  -- `a` may be spoken of before `b`: by its number, then its start, then the collation of the ids.
  abbrev pub ComesBefore : Dialogue → Dialogue → Type 0
  ComesBefore a b =
      (a.sequence_number < b.sequence_number)
      ⊎ ((a.sequence_number ≡ b.sequence_number)
          × ((a.start_time_us < b.start_time_us)
              ⊎ ((a.start_time_us ≡ b.start_time_us) × (locale_compare a.id b.id ≢ Ordering.gt))))

  abbrev pub AreInOrder : List Dialogue → Type 0
  AreInOrder [] = Unit
  AreInOrder (d ∷ ds) = All (ComesBefore d) ds × AreInOrder ds

  compare_dialogues-ComesBefore :
      (a b : Dialogue) → NotAfter (compare_dialogues locale_compare) a b → ComesBefore a b
  unfolding compare_dialogues
  compare_dialogues-ComesBefore a b h = ground arith

  IsSorted-AreInOrder :
      (ds : List Dialogue) → IsSorted (compare_dialogues locale_compare) ds → AreInOrder ds
  IsSorted-AreInOrder [] h = tt
  IsSorted-AreInOrder (d ∷ ds) (h, hs) =
      (All-map (λ e. compare_dialogues-ComesBefore d e) ds h, IsSorted-AreInOrder ds hs)

  -- A tie in the code's order is a tie of the ids.
  compare_dialogues-tie :
      (a b : Dialogue)
      → compare_dialogues locale_compare a b ≡ Ordering.eq
      → locale_compare a.id b.id ≡ Ordering.eq
  unfolding compare_dialogues
  compare_dialogues-tie a b h = ground arith

  -- The order of the input does not matter: two inputs that hold the same dialogues in any order are cut
  -- into the same scenes, and through these the dialogues run by their sequence number, then by their
  -- start, then by the collation of their ids. It holds where the collation is an order and tells the ids
  -- of different dialogues apart; numbers and starts may be equal.
  pub partition_unique :
      (xs ys : List Dialogue)
      → Permᴰ xs ys
      → All (λ a. All (λ b. locale_compare a.id b.id ≡ Ordering.eq → a ≡ b) xs) xs
      → (partition_localization_scenes locale_compare xs
          ≡ partition_localization_scenes locale_compare ys)
        × AreInOrder (dialogues_of (partition_localization_scenes locale_compare xs))
  partition_unique xs ys p apart = (
    same,
    subst AreInOrder (sym (partition_scenes locale_compare xs).0) (
        IsSorted-AreInOrder (sort_by (compare_dialogues locale_compare) xs)
          (IsSorted-sort_by (compare_dialogues locale_compare) compare_dialogues-IsOrder xs)),
  )
    where
      untied : AreUntied (compare_dialogues locale_compare) xs
      untied = All-map (λ a h. All-map (λ b tie e. tie (compare_dialogues-tie a b e)) xs h) xs apart

      same :
          partition_localization_scenes locale_compare xs
          ≡ partition_localization_scenes locale_compare ys
      same =
          unfold partition_localization_scenes in
          ap (λ ds. foldl (push_dialogue 0) [] ds)
            (sort_by_unique (compare_dialogues locale_compare) compare_dialogues-IsOrder xs ys p
              untied)
