-- ===== src/Localization/Versioned.antt =====
-- The revisions of a resource are numbered upwards, and its selection is one of them.
use text.Mathlib.TextPositions.{eq_refl}
use voice_verse_ai.Common.{
  ℕ, zero, suc, ◌+◌, ◌<◌, ◌≤◌, max, ◌≡◌, refl, sym, subst, ap, ◌∙◌, String, Bool, true, false, inl,
  inr, none, some, Option, List, [], ◌∷◌, ◌++◌, str_eq, eq_iff, if◌then◌else◌, All, All-map,
  All-map2, All-append, All-of, Bool-cases, Option-cases, Result, ok, arith,
}
use voice_verse_ai.Ingest.Tables.{find, update}
use voice_verse_ai.Ingest.Rows.{find-passes, find-append_new}
use voice_verse_ai.Localization.Types.{Revision, Selection, Resource, LocalizationError}
use voice_verse_ai.Localization.Versions.{
  has_revision_id, max_revision_number, next_revision_number, is_hit, reselect, add_revision,
  cas_selection,
}
use voice_verse_ai.Localization.Keyed.{
  find-append_left, find-All, find-exists, All-update, if-cases, AreKeyed, AreKeyed-update,
  AreKeyed-same,
}
use voice_verse_ai.Localization.Writes.{add_revision-eq, cas_selection-eq}
use voice_verse_ai.Localization.History.Order.{IsIncreasing}
pub mod Steps
pub mod Scenes
pub mod Sources
pub mod Translations
pub mod Glossaries
pub mod Stores
pub mod Tracks
pub mod Requests

module _ {ℓ} {P : Type ℓ} where
  abbrev pub HasRevision : List (Revision P) → String → Type ℓ
  HasRevision revisions id = (r : Revision P) × (find (has_revision_id id) revisions ≡ some r)

  -- Numbered upwards from 1 on.
  abbrev pub AreNumbered : List (Revision P) → Type 0
  AreNumbered revisions = IsIncreasing revisions × All (λ r. 0 < r.revision_number) revisions

  below_max :
      (revisions : List (Revision P)) (n : ℕ)
      → max_revision_number revisions < n
      → All (λ r. r.revision_number < n) revisions
  unfolding max_revision_number
  below_max [] n h = tt
  below_max (r ∷ rs) n h = (ground arith, below_max rs n (ground arith))

  IsIncreasing-snoc :
      (revisions : List (Revision P)) (r : Revision P)
      → IsIncreasing revisions
      → All (λ s. s.revision_number < r.revision_number) revisions
      → IsIncreasing (revisions ++ r ∷ [])
  IsIncreasing-snoc [] r h k = (tt, tt)
  IsIncreasing-snoc (s ∷ ss) r (h, hs) (k, ks) = (
    All-append (λ x. s.revision_number < x.revision_number) ss (r ∷ []) h (k, tt),
    IsIncreasing-snoc ss r hs ks,
  )

  -- The next number is greater than those before.
  pub AreNumbered-next :
      (revisions : List (Revision P)) (r : Revision P)
      → r.revision_number ≡ next_revision_number revisions
      → AreNumbered revisions
      → AreNumbered (revisions ++ r ∷ [])
  unfolding next_revision_number
  AreNumbered-next revisions r next (h, k) = (
    IsIncreasing-snoc revisions r h (below_max revisions r.revision_number (omega (arith, next))),
    All-append (λ r. 0 < r.revision_number) revisions (r ∷ []) k (omega (arith, next), tt),
  )

  pub HasRevision-append :
      (revisions : List (Revision P)) (r : Revision P) (id : String)
      → HasRevision revisions id
      → HasRevision (revisions ++ r ∷ []) id
  HasRevision-append revisions r id (s, found) =
      (s, find-append_left (has_revision_id id) revisions (r ∷ []) found)

  pub HasRevision-added :
      (revisions : List (Revision P)) (r : Revision P) → HasRevision (revisions ++ r ∷ []) r.id
  HasRevision-added revisions r = elim (Option-cases (find (has_revision_id r.id) revisions)) [
    | inl e ↦ (r, find-append_new (has_revision_id r.id) revisions r e (eq_refl r.id))
    | inr (s, e) ↦ (s, find-append_left (has_revision_id r.id) revisions (r ∷ []) e)
  ]

module _ {ℓ κ μ} {K : Type ℓ} {P : Type κ} {X : Type μ} where
  abbrev pub row_key : Resource K P X → String
  row_key row = row.id

  -- The selected revision is there, and the numbers go up.
  abbrev pub IsVersioned : Resource K P X → Type (κ ⊔ μ)
  IsVersioned row =
      AreNumbered row.revisions
      × ((s : Selection X)
          → row.selection ≡ some s
          → HasRevision row.revisions s.selected_revision_id)

  -- A table of resources with their primary key.
  pub record AreVersioned (rows : List (Resource K P X)) : Type (ℓ ⊔ κ ⊔ μ) where
    pub keyed : AreKeyed row_key rows
    pub versioned : All IsVersioned rows

  pub add_revision-AreVersioned :
      (p : Resource K P X → Bool) (row : Resource K P X) (revision : Revision P)
      (rows : List (Resource K P X)) {added : List (Resource K P X)}
      → find p rows ≡ some row
      → revision.revision_number ≡ next_revision_number row.revisions
      → add_revision row.id revision rows ≡ ok added
      → AreVersioned rows
      → AreVersioned added
  add_revision-AreVersioned p row revision rows {added} found next adds are =
      let q : Resource K P X → Bool = λ x. str_eq x.id row.id in
      let f : Resource K P X → Resource K P X =
        λ x. record x { revisions = x.revisions ++ revision ∷ [] } in
      subst AreVersioned (add_revision-eq row.id revision rows adds).1 (record {
        keyed = AreKeyed-update row_key q f rows (λ _. refl) are.keyed;
        versioned = All-update IsVersioned q f rows (
            All-map2
              (λ x (numbered, selected) same.
                if-cases IsVersioned (q x) (f x) x
                  (λ hit. (
                    AreNumbered-next x.revisions revision
                        (subst
                          (λ (y : Resource K P X).
                            revision.revision_number ≡ next_revision_number y.revisions)
                          (sym (same hit)) next)
                        numbered,
                    λ s e.
                        HasRevision-append x.revisions revision s.selected_revision_id
                          (selected s e),
                  ))
                  (λ _. (numbered, selected)))
              rows are.versioned (AreKeyed-same row_key p rows are.keyed found));
      })

  -- The rows of the id have the revision that was added.
  pub add_revision-HasRevision :
      (id : String) (revision : Revision P) (rows : List (Resource K P X))
      {added : List (Resource K P X)}
      → add_revision id revision rows ≡ ok added
      → All (λ x. str_eq x.id id ≡ true → HasRevision x.revisions revision.id) added
  add_revision-HasRevision id revision rows adds =
      let q : Resource K P X → Bool = λ x. str_eq x.id id in
      let f : Resource K P X → Resource K P X =
        λ x. record x { revisions = x.revisions ++ revision ∷ [] } in
      let Q : Resource K P X → Type κ =
        λ x. str_eq x.id id ≡ true → HasRevision x.revisions revision.id in
      subst (All Q) (add_revision-eq id revision rows adds).1 (
        All-update Q q f rows (
          All-of rows (λ x.
            if-cases Q (q x) (f x) x (λ _ _. HasRevision-added x.revisions revision)
              (λ no yes. cc (no, yes)))))

  reselect-selected :
      (user_id revision_id : String) (state : X) (row : Resource K P X) {s : Selection X}
      → (reselect user_id revision_id state row).selection ≡ some s
      → s.selected_revision_id ≡ revision_id
  unfolding reselect
  reselect-selected user_id revision_id state row {s} h = elim (Option-cases row.selection) [
    | inl e ↦ cc (rw e at h)
    | inr (_, e) ↦ cc (rw e at h)
  ]

  -- A selection of a revision that is there.
  pub select-AreVersioned :
      (q : Resource K P X → Bool) (revision_id : String)
      (state : Resource K P X → Option (Selection X)) (rows : List (Resource K P X))
      → ((x : Resource K P X) (s : Selection X)
          → state x ≡ some s
          → s.selected_revision_id ≡ revision_id)
      → All (λ x. q x ≡ true → HasRevision x.revisions revision_id) rows
      → AreVersioned rows
      → AreVersioned (update q (λ x. record x { selection = state x }) rows)
  select-AreVersioned q revision_id state rows selects there are =
      let f : Resource K P X → Resource K P X = λ x. record x { selection = state x } in
      record {
        keyed = AreKeyed-update row_key q f rows (λ _. refl) are.keyed;
        versioned = All-update IsVersioned q f rows (
            All-map2
              (λ x (numbered, selected) has.
                if-cases IsVersioned (q x) (f x) x
                  (λ hit. (
                    numbered,
                    λ s e. subst (HasRevision x.revisions) (sym (selects x s e)) (has hit),
                  ))
                  (λ _. (numbered, selected)))
              rows are.versioned there);
      }

  pub cas_selection-AreVersioned :
      (matches : Resource K P X → Bool) (expected : ℕ) (user_id revision_id : String) (state : X)
      (rows : List (Resource K P X)) {rows' : List (Resource K P X)}
      → cas_selection matches expected (reselect user_id revision_id state) rows ≡ ok rows'
      → All (λ x. matches x ≡ true → HasRevision x.revisions revision_id) rows
      → AreVersioned rows
      → AreVersioned rows'
  unfolding is_hit reselect
  cas_selection-AreVersioned matches expected user_id revision_id state rows cas there are =
      let f : Resource K P X → Resource K P X = reselect user_id revision_id state in
      subst AreVersioned (cas_selection-eq matches expected f rows cas).1 (
        select-AreVersioned (is_hit matches expected) revision_id (λ x. (f x).selection) rows
          (λ x s e. reselect-selected user_id revision_id state x e)
          (All-map (λ x has hit. has (ground arith)) rows there) are)

  -- A change that keeps ids, revisions and what is selected.
  pub update-AreVersioned :
      (q : Resource K P X → Bool) (f : Resource K P X → Resource K P X)
      (rows : List (Resource K P X))
      → ((x : Resource K P X) → row_key (f x) ≡ row_key x)
      → ((x : Resource K P X) → IsVersioned x → IsVersioned (f x))
      → AreVersioned rows
      → AreVersioned (update q f rows)
  update-AreVersioned q f rows keeps versions are = record {
    keyed = AreKeyed-update row_key q f rows keeps are.keyed;
    versioned = All-update IsVersioned q f rows (
        All-map (λ x h. if-cases IsVersioned (q x) (f x) x (λ _. versions x h) (λ _. h)) rows
          are.versioned);
  }

  -- The revision that a search of the table's row has found is there, in every row of its id.
  pub found-HasRevision :
      (p : Resource K P X → Bool) (row : Resource K P X) (q : Revision P → Bool) (r : Revision P)
      (rows : List (Resource K P X))
      → find p rows ≡ some row
      → find q row.revisions ≡ some r
      → AreVersioned rows
      → All (λ x. str_eq x.id row.id ≡ true → HasRevision x.revisions r.id) rows
  found-HasRevision p row q r rows found there are =
      All-map
        (λ x same hit.
          subst (λ (y : Resource K P X). HasRevision y.revisions r.id) (sym (same hit))
            (find-exists (has_revision_id r.id) q row.revisions there (eq_refl r.id)))
        rows (AreKeyed-same row_key p rows are.keyed found)
