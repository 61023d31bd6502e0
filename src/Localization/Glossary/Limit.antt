-- ===== src/Localization/Glossary/Limit.antt =====
-- The size of a glossary.
use voice_verse_ai.Common.{
  ◌<◌, ◌≤◌, leb, ◌≡◌, subst, ap, ◌∙◌, String, Bool, true, false, inl, inr, List, [], ◌∷◌, ◌++◌,
  length, length-append, keep, eq_iff, Bool-cases, ok, ◌>>◌, >>=-eq-ok, throw_if, throw_if-eq-ok,
  ok-injective, arith,
}
use voice_verse_ai.Common.Keep.{keep-append}
use voice_verse_ai.Ingest.Types.{AccessContext}
use voice_verse_ai.Localization.Types.{
  Scope, GlossaryEntry, NormalizedGlossaryInput, LocalizationAudit, Store, glossary_full,
}
use voice_verse_ai.Localization.Access.{
  EditEnv, assert_can_edit, owned_track, scope_of, new_revision, rethrow_glossary_write_error,
}
use voice_verse_ai.Localization.Glossary.{
  GlossaryInput, GlossaryRevisionResponse, normalize_glossary_input, is_of_glossary, put_glossary,
  glossary_limit, first_entry, assert_entry_free, insert_entry,
}
use voice_verse_ai.Localization.Glossary.Edit.{create_glossary_entry}
use voice_verse_ai.Localization.Settled.{same_scope-eq}
use voice_verse_ai.Localization.Writes.{commit-keeps, checked-keeps}

-- No track has more entries than the limit.
abbrev pub AreWithinLimit : List GlossaryEntry → Type 0
AreWithinLimit entries =
    (scope : Scope) (track_id : String)
    → length (keep (is_of_glossary scope track_id) entries) ≤ glossary_limit

is_of_glossary-eq :
    (scope : Scope) (track_id : String) (entry : GlossaryEntry)
    → is_of_glossary scope track_id entry ≡ true
    → (entry.scope ≡ scope) × (entry.owner.track_id ≡ track_id)
unfolding is_of_glossary
is_of_glossary-eq scope track_id entry h = (
  same_scope-eq entry.scope scope (ground arith),
  ground (arith, eq_iff entry.owner.track_id track_id),
)

snoc-AreWithinLimit :
    (entries : List GlossaryEntry) (entry : GlossaryEntry)
    → length (keep (is_of_glossary entry.scope entry.owner.track_id) entries) < glossary_limit
    → AreWithinLimit entries
    → AreWithinLimit (entries ++ entry ∷ [])
snoc-AreWithinLimit entries entry room within scope track_id =
    let p : GlossaryEntry → Bool = is_of_glossary scope track_id in
    let size =
      ap length (keep-append p entries (entry ∷ []))
      ∙ length-append (keep p entries) (keep p (entry ∷ [])) in
    elim (Bool-cases (p entry)) [
      | inl is ↦
          (let (one, same) = is_of_glossary-eq scope track_id entry is in
            let left : length (keep p entries) < glossary_limit =
              subst (λ s. length (keep (is_of_glossary s track_id) entries) < glossary_limit) one
                (subst (λ t. length (keep (is_of_glossary entry.scope t) entries) < glossary_limit)
                  same room) in
            rw size (rw (is, keep, length) (omega (arith, left))))
      | inr other ↦ rw size (rw (other, keep, length) (omega (arith, within scope track_id)))
    ]

insert_entry-AreWithinLimit :
    (env : EditEnv) (context : AccessContext) (project_id track_id : String)
    (normalized : NormalizedGlossaryInput) (store : Store) {entries : List GlossaryEntry}
    {entry : LocalizationAudit} {answer : GlossaryRevisionResponse}
    → insert_entry env context project_id track_id normalized store ≡ ok (entries, entry, answer)
    → AreWithinLimit store.glossary
    → AreWithinLimit entries
unfolding insert_entry first_entry
insert_entry-AreWithinLimit env context project_id track_id normalized store h within =
    let (track, _, h1) = >>=-eq-ok (owned_track context project_id track_id store) _ h in
    let scope = scope_of context project_id track in
    let size = length (keep (is_of_glossary scope track_id) store.glossary) in
    let (_, room, h2) = >>=-eq-ok (throw_if (leb glossary_limit size) glossary_full) _ h1 in
    let small : leb glossary_limit size ≡ false = throw_if-eq-ok (leb glossary_limit size) _ room in
    let new = first_entry env context scope track_id normalized in
    let (_, _, h3) =
      >>=-eq-ok (assert_entry_free new (new_revision env context 1 normalized) store.glossary) _
        h2 in
    subst AreWithinLimit
      (ap (λ (x : List GlossaryEntry × LocalizationAudit × GlossaryRevisionResponse). x.0)
        (ok-injective h3))
      (snoc-AreWithinLimit store.glossary new (ground arith) within)

-- A glossary never grows over its limit: when no track has more than 200 entries, none has after a
-- request to create one, whether the request is answered or refused, and for whatever track it is.
pub create_glossary_entry-AreWithinLimit :
    (env : EditEnv) (context : AccessContext) (project_id track_id : String) (input : GlossaryInput)
    (store : Store)
    → AreWithinLimit store.glossary
    → AreWithinLimit (create_glossary_entry env context project_id track_id input store).0.glossary
unfolding create_glossary_entry put_glossary
create_glossary_entry-AreWithinLimit env context project_id track_id input store within =
    checked-keeps (λ s. AreWithinLimit s.glossary) store
      (assert_can_edit context >> normalize_glossary_input env input) _
      (λ normalized.
        commit-keeps (λ s. AreWithinLimit s.glossary) rethrow_glossary_write_error put_glossary
          env.fault store (insert_entry env context project_id track_id normalized store)
          (λ entries entry answer h. inserted normalized entries entry answer h) within)
      within
  where
    inserted :
        (normalized : NormalizedGlossaryInput) (entries : List GlossaryEntry)
        (entry : LocalizationAudit) (answer : GlossaryRevisionResponse)
        → insert_entry env context project_id track_id normalized store
          ≡ ok (entries, entry, answer)
        → AreWithinLimit entries
    inserted normalized entries entry answer h =
        insert_entry-AreWithinLimit env context project_id track_id normalized store h within
