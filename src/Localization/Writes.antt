-- ===== src/Localization/Writes.antt =====
-- What a write that is not refused has done to its table, and what a transaction keeps.
use voice_verse_ai.Common.{
  ◌⊎◌, ℕ, ◌≡◌, refl, subst, String, Bool, true, false, inl, inr, none, some, List, ◌++◌, ◌∷◌, [],
  length, keep, str_eq, eq_iff, ◌==◌, Bool-cases, Option-cases, Option, Result, ok, err, >>=-eq-ok,
  ok-injective, ap, arith,
}
use voice_verse_ai.Ingest.Types.{AccessContext}
use voice_verse_ai.Ingest.Tables.{find, update}
use voice_verse_ai.Ingest.Rows.{find-passes}
use voice_verse_ai.Localization.Types.{
  Revision, Selection, Resource, LocalizationTrack, LocalizationAudit, Store, LocalizationError,
}
use voice_verse_ai.Localization.Versions.{
  has_revision_id, selected_revision, is_hit, cas_selection, is_taken, add_revision,
  require_selection, require,
}
use voice_verse_ai.Localization.Access.{
  assert_uuid, is_owned_track, owned_track, scope_of, commit, checked,
}

pub require-eq {ℓ} :
    {A : Type ℓ} (e : LocalizationError) (o : Option A) {a : A} → require e o ≡ ok a → o ≡ some a
unfolding require
require-eq e none h = cc h
require-eq e (some b) h = cc h

module _ {ℓ κ μ} {K : Type ℓ} {P : Type κ} {X : Type μ} where
  pub require_selection-eq :
      (e : LocalizationError) (o : Option (Resource K P X)) {row : Resource K P X} {s : Selection X}
      → require_selection e o ≡ ok (row, s)
      → (o ≡ some row) × (row.selection ≡ some s)
  unfolding require_selection
  require_selection-eq e none h = cc h
  require_selection-eq e (some found) {row} {s} h = elim (Option-cases found.selection) [
    | inl n ↦ cc (rw (n, require_selection) at h)
    | inr (t, n) ↦
        (let both : ◌≡◌ {A = Resource K P X × Selection X} (found, t) (row, s) =
            ok-injective (rw (n, require_selection) at h) in
          let same : found ≡ row = ap (λ (x : Resource K P X × Selection X). x.0) both in
          let chosen : t ≡ s = ap (λ (x : Resource K P X × Selection X). x.1) both in
          (
            ap some same,
            subst (λ (x : Resource K P X). x.selection ≡ some s) same (cc (n, chosen)),
          ))
  ]

  pub add_revision-eq :
      (id : String) (revision : Revision P) (rows : List (Resource K P X))
      {rows' : List (Resource K P X)}
      → add_revision id revision rows ≡ ok rows'
      → (is_taken revision.id rows ≡ false)
        × (update
              (λ (row : Resource K P X). str_eq row.id id)
              (λ (row : Resource K P X). record row { revisions = row.revisions ++ revision ∷ [] })
              rows
            ≡ rows')
  unfolding add_revision
  add_revision-eq id revision rows h = elim (Bool-cases (is_taken revision.id rows)) [
    | inl e ↦ cc (rw (e, add_revision) at h)
    | inr e ↦ (e, ok-injective (rw (e, add_revision) at h))
  ]

  pub cas_selection-eq :
      (matches : Resource K P X → Bool) (expected : ℕ) (change : Resource K P X → Resource K P X)
      (rows : List (Resource K P X)) {rows' : List (Resource K P X)}
      → cas_selection matches expected change rows ≡ ok rows'
      → ((length (keep (is_hit matches expected) rows) == 1) ≡ true)
        × (update (is_hit matches expected) change rows ≡ rows')
  unfolding cas_selection
  cas_selection-eq matches expected change rows h =
      elim (Bool-cases (length (keep (is_hit matches expected) rows) == 1)) [
        | inl e ↦ (e, ok-injective (rw (e, cas_selection) at h))
        | inr e ↦ cc (rw (e, cas_selection) at h)
      ]

pub selected_revision-eq {ℓ κ} :
    {P : Type ℓ} {X : Type κ} (revisions : List (Revision P)) (s : Selection X) {r : Revision P}
    → selected_revision revisions s ≡ ok r
    → find (has_revision_id s.selected_revision_id) revisions ≡ some r
unfolding selected_revision
selected_revision-eq revisions s h =
    elim (Option-cases (find (has_revision_id s.selected_revision_id) revisions)) [
      | inl e ↦ cc (rw (e, selected_revision) at h)
      | inr (_, e) ↦ cc (e, (rw (e, selected_revision) at h))
    ]

module _ (context : AccessContext) (project_id track_id : String) (store : Store) where
  pub owned_track-eq :
      {track : LocalizationTrack}
      → owned_track context project_id track_id store ≡ ok track
      → find (is_owned_track context project_id track_id) store.tracks ≡ some track
  unfolding owned_track
  owned_track-eq h =
      let (_, _, h1) = >>=-eq-ok (assert_uuid project_id "project") _ h in
      let (_, _, h2) = >>=-eq-ok (assert_uuid track_id "localization track") _ h1 in
      elim (Option-cases (find (is_owned_track context project_id track_id) store.tracks)) [
        | inl e ↦ cc (rw e at h2)
        | inr (_, e) ↦ cc (e, (rw e at h2))
      ]

  -- The scope in which the request looks for rows is the track's.
  pub scope_of-track :
      {track : LocalizationTrack}
      → find (is_owned_track context project_id track_id) store.tracks ≡ some track
      → (scope_of context project_id track ≡ track.scope) × (track.id ≡ track_id)
  unfolding scope_of
  scope_of-track {track} found =
      let passed = find-passes _ store.tracks found in
      let o : context.organization_id ≡ track.scope.organization_id =
        ground (arith, eq_iff track.scope.organization_id context.organization_id) in
      let p : project_id ≡ track.scope.project_id =
        ground (arith, eq_iff track.scope.project_id project_id) in
      (
        λ i. record {
          organization_id = o i;
          project_id = p i;
          workspace_id = track.scope.workspace_id;
        },
        ground (arith, eq_iff track.id track_id),
      )

-- What holds of the tables before holds after, if it holds of what the transaction writes.
pub commit-keeps {ℓ κ μ} :
    {T : Type ℓ} {A : Type κ} (P : Store → Type μ) (rethrow : LocalizationError → LocalizationError)
    (write : T → Store → Store) (fault : Option LocalizationError) (store : Store)
    (outcome : Result LocalizationError (T × LocalizationAudit × A))
    → ((tables : T) (entry : LocalizationAudit) (answer : A)
        → outcome ≡ ok (tables, entry, answer)
        → P (
            let written = write tables store in
            record written { audit = written.audit ++ entry ∷ [] }))
    → P store
    → P (commit rethrow write fault store outcome).0
unfolding commit
commit-keeps P rethrow write fault store (err e) kept h = h
commit-keeps P rethrow write (some e) store (ok _) kept h = h
commit-keeps P rethrow write none store (ok (tables, entry, answer)) kept h =
    kept tables entry answer refl

pub checked-keeps {ℓ κ μ} :
    {C : Type ℓ} {A : Type κ} (P : Store → Type μ) (store : Store)
    (checks : Result LocalizationError C) (next : C → Store × Result LocalizationError A)
    → ((c : C) → P (next c).0)
    → P store
    → P (checked store checks next).0
unfolding checked
checked-keeps P store (err e) next kept h = h
checked-keeps P store (ok c) next kept h = kept c

-- An answer comes from what the transaction has written.
pub commit-eq_ok {ℓ κ} :
    {T : Type ℓ} {A : Type κ} (rethrow : LocalizationError → LocalizationError)
    (write : T → Store → Store) (fault : Option LocalizationError) (store : Store)
    (outcome : Result LocalizationError (T × LocalizationAudit × A)) {after : Store} {answer : A}
    → commit rethrow write fault store outcome ≡ (after, ok answer)
    → (tables : T) × (entry : LocalizationAudit) × (outcome ≡ ok (tables, entry, answer))
      × ((let written = write tables store in
            record written { audit = written.audit ++ entry ∷ [] })
          ≡ after)
unfolding commit
commit-eq_ok rethrow write fault store (err e) h = cc h
commit-eq_ok rethrow write (some e) store (ok _) h = cc h
commit-eq_ok {A = A} rethrow write none store (ok (tables, entry, answer)) h = (
  tables,
  entry,
  ap (λ a. ok (tables, entry, a))
      (ok-injective (ap (λ (p : Store × Result LocalizationError A). p.1) h)),
  ap (λ (p : Store × Result LocalizationError A). p.0) h,
)

pub checked-eq_ok {ℓ κ} :
    {C : Type ℓ} {A : Type κ} (store : Store) (checks : Result LocalizationError C)
    (next : C → Store × Result LocalizationError A) {after : Store} {answer : A}
    → checked store checks next ≡ (after, ok answer)
    → (c : C) × (checks ≡ ok c) × (next c ≡ (after, ok answer))
unfolding checked
checked-eq_ok store (err e) next h = cc h
checked-eq_ok store (ok c) next h = (c, refl, h)

-- A request is answered, or refused with nothing written.
pub checked-cases {ℓ κ μ} :
    {C : Type ℓ} {T : Type κ} {A : Type μ} (rethrow : LocalizationError → LocalizationError)
    (write : T → Store → Store) (fault : Option LocalizationError) (store : Store)
    (checks : Result LocalizationError C)
    (outcome : C → Result LocalizationError (T × LocalizationAudit × A))
    → ((after : Store) × (answer : A) × (checked store checks
            (λ c. commit rethrow write fault store (outcome c))
          ≡ (after, ok answer)))
      ⊎ ((e : LocalizationError) × (checked store checks
              (λ c. commit rethrow write fault store (outcome c))
            ≡ (store, err e)))
unfolding checked
checked-cases rethrow write fault store (err e) outcome = inr (e, refl)
checked-cases {T = T} {A = A} rethrow write fault store (ok c) outcome = go fault (outcome c)
  where
    go :
        (fault : Option LocalizationError)
        (r : Result LocalizationError (T × LocalizationAudit × A))
        → ((after : Store) × (answer : A) × (commit rethrow write fault store r
              ≡ (after, ok answer)))
          ⊎ ((e : LocalizationError) × (commit rethrow write fault store r ≡ (store, err e)))
    go fault (err e) = unfold commit in inr (rethrow e, refl)
    go (some e) (ok _) = unfold commit in inr (rethrow e, refl)
    go none (ok (tables, entry, answer)) = unfold commit in inl (_, answer, refl)
