-- ===== src/Localization/Track/Inserted.antt =====
-- What `createMany` has done when it is not refused.
use mathlib.Core.List.{append_assoc, append-nil}
use voice_verse_ai.Common.{
  ◌≡◌, sym, subst, ◌∙◌, inl, inr, List, [], ◌∷◌, ◌++◌, str_eq, ok, ok-injective, All, All-append,
  Bool-cases,
}
use voice_verse_ai.Ingest.Tables.{find}
use voice_verse_ai.Ingest.Create.{is_some}
use voice_verse_ai.Localization.Types.{Resource}
use voice_verse_ai.Localization.Track.{insert_all}
use voice_verse_ai.Localization.Keyed.{is_some-false, AreKeyed, AreKeyed-append}
use voice_verse_ai.Localization.Versioned.{AreVersioned, IsVersioned, row_key}

module _ {ℓ κ μ} {K : Type ℓ} {P : Type κ} {X : Type μ} where
  -- The rows stand behind those that were there, with their keys apart.
  pub insert_all-eq :
      (more rows : List (Resource K P X)) {rows' : List (Resource K P X)}
      → insert_all more rows ≡ ok rows'
      → (rows' ≡ rows ++ more) × (AreKeyed row_key rows → AreKeyed row_key rows')
  unfolding insert_all
  insert_all-eq [] rows h =
      let same : rows ≡ _ = ok-injective h in
      (sym same ∙ sym (append-nil rows), λ k. subst (AreKeyed row_key) same k)
  insert_all-eq (row ∷ more) rows h =
      elim (Bool-cases (is_some (find (λ (x : Resource K P X). str_eq x.id row.id) rows))) [
        | inl e ↦ cc (rw e at h)
        | inr e ↦
            (let (same, keyed) = insert_all-eq more (rows ++ row ∷ []) (rw e at h) in
              (
                same ∙ append_assoc rows (row ∷ []) more,
                λ k. keyed (AreKeyed-append row_key rows row (is_some-false _ e) k),
              ))
      ]

  pub insert_all-AreVersioned :
      (more rows : List (Resource K P X)) {rows' : List (Resource K P X)}
      → insert_all more rows ≡ ok rows'
      → All IsVersioned more
      → AreVersioned rows
      → AreVersioned rows'
  insert_all-AreVersioned more rows h new are =
      let (same, keyed) = insert_all-eq more rows h in
      record {
        keyed = keyed are.keyed;
        versioned =
            subst (All IsVersioned) (sym same) (All-append IsVersioned rows more are.versioned new);
      }
