-- ===== src/Localization/Versioned/Steps.antt =====
-- The two ways in which a request makes a revision active: a new one, and one that is there.
use voice_verse_ai.Common.{ℕ, ◌≡◌, sym, subst, String, Bool, true, some, List, str_eq, All-map, ok}
use voice_verse_ai.Ingest.Tables.{find}
use voice_verse_ai.Localization.Types.{Revision, Resource}
use voice_verse_ai.Localization.Versions.{
  next_revision_number, add_revision, cas_selection, reselect,
}
use voice_verse_ai.Localization.Versioned.{
  AreVersioned, add_revision-AreVersioned, add_revision-HasRevision, cas_selection-AreVersioned,
  found-HasRevision,
}

module _ {ℓ κ μ} {K : Type ℓ} {P : Type κ} {X : Type μ} (matches p : Resource K P X → Bool)
    (id : String) (row : Resource K P X) (rows : List (Resource K P X))
    (found : find p rows ≡ some row) (named : row.id ≡ id)
    (by_id : (x : Resource K P X) → matches x ≡ true → str_eq x.id id ≡ true)
    (are : AreVersioned rows) where
  pub add-AreVersioned :
      (revision : Revision P) {added : List (Resource K P X)}
      → revision.revision_number ≡ next_revision_number row.revisions
      → add_revision id revision rows ≡ ok added
      → AreVersioned added
  add-AreVersioned revision {added} next adds =
      add_revision-AreVersioned p row revision rows found next
        (subst (λ k. add_revision k revision rows ≡ ok added) (sym named) adds) are

  pub select_new-AreVersioned :
      (expected : ℕ) (user_id : String) (state : X) (revision : Revision P)
      {added rows' : List (Resource K P X)}
      → revision.revision_number ≡ next_revision_number row.revisions
      → add_revision id revision rows ≡ ok added
      → cas_selection matches expected (reselect user_id revision.id state) added ≡ ok rows'
      → AreVersioned rows'
  select_new-AreVersioned expected user_id state revision {added} next adds cas =
      cas_selection-AreVersioned matches expected user_id revision.id state added cas
        (All-map (λ x has hit. has (by_id x hit)) added
          (add_revision-HasRevision id revision rows adds))
        (add-AreVersioned revision next adds)

  pub select_old-AreVersioned :
      (expected : ℕ) (user_id : String) (state : X) (q : Revision P → Bool) (r : Revision P)
      {rows' : List (Resource K P X)}
      → find q row.revisions ≡ some r
      → cas_selection matches expected (reselect user_id r.id state) rows ≡ ok rows'
      → AreVersioned rows'
  select_old-AreVersioned expected user_id state q r there cas =
      cas_selection-AreVersioned matches expected user_id r.id state rows cas
        (All-map (λ x has hit. has (subst (λ k. str_eq x.id k ≡ true) (sym named) (by_id x hit)))
          rows (found-HasRevision p row q r rows found there are))
        are
