-- ===== src/Localization/Versioned/Glossaries.antt =====
-- The revisions of glossary entries, under their creation, an edit and a selection.
use voice_verse_ai.Common.{
  ℕ, ◌≡◌, refl, subst, ap, String, true, ◌||◌, some, List, [], ◌∷◌, str_eq, leb, length, keep, ok,
  >>=-eq-ok, ok-injective, throw_if, throw_if-eq-ok, All-append, arith, eq_iff,
}
use voice_verse_ai.Ingest.Types.{AccessContext}
use voice_verse_ai.Ingest.Tables.{find}
use voice_verse_ai.Ingest.Rows.{find-passes}
use voice_verse_ai.Ingest.Create.{is_some}
use voice_verse_ai.Localization.Types.{
  Scope, Revision, NormalizedGlossaryInput, GlossaryEntry, LocalizationAudit, Store,
  glossary_entry_not_found, glossary_revision_not_found, edit_without_change, already_active,
  glossary_full, unique_violation,
}
use voice_verse_ai.Localization.Versions.{
  has_revision_id, selected_revision, next_revision_number, assert_expected_revision, reselect,
  cas_selection, is_taken, add_revision, require_selection, require,
}
use voice_verse_ai.Localization.Access.{
  EditEnv, owned_track, scope_of, new_revision, SelectRevision,
}
use voice_verse_ai.Localization.Glossary.{
  GlossaryRevisionResponse, glossary_key_of, assert_term_free, is_of_glossary, is_owned_entry,
  owned_glossary_entry, cas_glossary_selection, glossary_limit, first_entry, assert_entry_free,
  insert_entry,
}
use voice_verse_ai.Localization.Glossary.Edit.{same_term, write_entry, edit_entry, choose_entry}
use voice_verse_ai.Localization.Keyed.{is_some-false, AreKeyed-append}
use voice_verse_ai.Localization.Writes.{require-eq}
use voice_verse_ai.Localization.Versioned.{AreVersioned, IsVersioned, row_key, HasRevision-added}
use voice_verse_ai.Localization.Versioned.Steps.{select_new-AreVersioned, select_old-AreVersioned}

abbrev Entered : Type 0
Entered = List GlossaryEntry × LocalizationAudit × GlossaryRevisionResponse

entry_id_of :
    (scope : Scope) (track_id entry_id : String) (entry : GlossaryEntry)
    → is_owned_entry scope track_id entry_id entry ≡ true
    → str_eq entry.id entry_id ≡ true
unfolding is_owned_entry
entry_id_of scope track_id entry_id entry h = ground arith

module _ (context : AccessContext) (project_id track_id entry_id : String) (store : Store)
    (are : AreVersioned store.glossary) where
  cas-eq :
      (scope : Scope) (revision : Revision NormalizedGlossaryInput) (expected : ℕ)
      (entries : List GlossaryEntry) {updated : List GlossaryEntry}
      → cas_glossary_selection context scope track_id entry_id revision expected entries
        ≡ ok updated
      → cas_selection
          (is_owned_entry scope track_id entry_id)
          expected
          (reselect context.user_id revision.id (glossary_key_of revision.content))
          entries
        ≡ ok updated
  unfolding cas_glossary_selection
  cas-eq scope revision expected entries h =
      let (updated, cas, h1) = >>=-eq-ok (cas_selection _ expected _ entries) _ h in
      let (_, _, done) =
        >>=-eq-ok (assert_term_free entry_id track_id (glossary_key_of revision.content) entries) _
          h1 in
      cc (cas, done)

  id_of :
      (scope : Scope) (entry : GlossaryEntry)
      → find (is_owned_entry scope track_id entry_id) store.glossary ≡ some entry
      → entry.id ≡ entry_id
  id_of scope entry found =
      (eq_iff entry.id entry_id).0
        (entry_id_of scope track_id entry_id entry (find-passes _ store.glossary found))

  pub edit_entry-AreVersioned :
      (env : EditEnv) (normalized : NormalizedGlossaryInput) (expected : ℕ)
      {rows : List GlossaryEntry} {entry : LocalizationAudit} {answer : GlossaryRevisionResponse}
      → edit_entry env context project_id track_id entry_id normalized expected store
        ≡ ok (rows, entry, answer)
      → AreVersioned rows
  unfolding edit_entry write_entry owned_glossary_entry new_revision
  edit_entry-AreVersioned env normalized expected h =
      let (track, _, h1) = >>=-eq-ok (owned_track context project_id track_id store) _ h in
      let scope = scope_of context project_id track in
      let (e, has, h2) = >>=-eq-ok (owned_glossary_entry scope track_id entry_id store) _ h1 in
      let (found, _, h3) = >>=-eq-ok (require_selection glossary_entry_not_found (some e)) _ h2 in
      let (_, _, h4) = >>=-eq-ok (assert_expected_revision found.1.revision expected) _ h3 in
      let (active, _, h5) = >>=-eq-ok (selected_revision e.revisions found.1) _ h4 in
      let (_, _, h6) =
        >>=-eq-ok (throw_if (same_term active.content normalized) edit_without_change) _ h5 in
      let revision = new_revision env context (next_revision_number e.revisions) normalized in
      let (added, adds, h7) = >>=-eq-ok (add_revision entry_id revision store.glossary) _ h6 in
      let (updated, cas, done) =
        >>=-eq-ok (cas_glossary_selection context scope track_id entry_id revision expected added) _
          h7 in
      let is = require-eq glossary_entry_not_found _ has in
      subst AreVersioned (ap (λ (x : Entered). x.0) (ok-injective done)) (
        select_new-AreVersioned (is_owned_entry scope track_id entry_id)
          (is_owned_entry scope track_id entry_id) entry_id e store.glossary is (id_of scope e is)
          (λ x hit. entry_id_of scope track_id entry_id x hit) are expected context.user_id
          (glossary_key_of normalized) revision refl adds
          (cas-eq scope revision expected added cas))

  pub choose_entry-AreVersioned :
      (input : SelectRevision) {rows : List GlossaryEntry} {entry : LocalizationAudit}
      {answer : GlossaryRevisionResponse}
      → choose_entry context project_id track_id entry_id input store ≡ ok (rows, entry, answer)
      → AreVersioned rows
  unfolding choose_entry owned_glossary_entry
  choose_entry-AreVersioned input h =
      let (track, _, h1) = >>=-eq-ok (owned_track context project_id track_id store) _ h in
      let scope = scope_of context project_id track in
      let (e, has, h2) = >>=-eq-ok (owned_glossary_entry scope track_id entry_id store) _ h1 in
      let (found, _, h3) = >>=-eq-ok (require_selection glossary_entry_not_found (some e)) _ h2 in
      let there = find (has_revision_id input.revision_id) e.revisions in
      let (r, reads, h4) = >>=-eq-ok (require glossary_revision_not_found there) _ h3 in
      let (_, _, h5) =
        >>=-eq-ok (assert_expected_revision found.1.revision input.expected_revision) _ h4 in
      let (_, _, h6) =
        >>=-eq-ok (throw_if (str_eq found.1.selected_revision_id r.id) already_active) _ h5 in
      let (updated, cas, done) =
        >>=-eq-ok
          (cas_glossary_selection context scope track_id entry_id r input.expected_revision
            store.glossary)
          _ h6 in
      let is = require-eq glossary_entry_not_found _ has in
      subst AreVersioned (ap (λ (x : Entered). x.0) (ok-injective done)) (
        select_old-AreVersioned (is_owned_entry scope track_id entry_id)
          (is_owned_entry scope track_id entry_id) entry_id e store.glossary is (id_of scope e is)
          (λ x hit. entry_id_of scope track_id entry_id x hit) are input.expected_revision
          context.user_id (glossary_key_of r.content) (has_revision_id input.revision_id) r
          (require-eq glossary_revision_not_found there reads)
          (cas-eq scope r input.expected_revision store.glossary cas))

module _ (context : AccessContext) (project_id track_id : String) (store : Store)
    (are : AreVersioned store.glossary) where
  first_entry-IsVersioned :
      (env : EditEnv) (scope : Scope) (normalized : NormalizedGlossaryInput)
      → IsVersioned (first_entry env context scope track_id normalized)
  unfolding first_entry new_revision
  first_entry-IsVersioned env scope normalized = (
    ((tt, tt), (omega arith, tt)),
    λ s e.
        subst
          (λ k.
            (r : Revision NormalizedGlossaryInput) × (find (has_revision_id k)
                (new_revision env context 1 normalized ∷ [])
              ≡ some r))
          (cc e) (HasRevision-added [] (new_revision env context 1 normalized)),
  )

  pub insert_entry-AreVersioned :
      (env : EditEnv) (normalized : NormalizedGlossaryInput) {rows : List GlossaryEntry}
      {entry : LocalizationAudit} {answer : GlossaryRevisionResponse}
      → insert_entry env context project_id track_id normalized store ≡ ok (rows, entry, answer)
      → AreVersioned rows
  unfolding insert_entry assert_entry_free
  insert_entry-AreVersioned env normalized h =
      let (track, _, h1) = >>=-eq-ok (owned_track context project_id track_id store) _ h in
      let scope = scope_of context project_id track in
      let fresh = first_entry env context scope track_id normalized in
      let revision = new_revision env context 1 normalized in
      let (_, _, h2) =
        >>=-eq-ok
          (throw_if
            (leb glossary_limit (length (keep (is_of_glossary scope track_id) store.glossary)))
            glossary_full)
          _ h1 in
      let (_, free, done) = >>=-eq-ok (assert_entry_free fresh revision store.glossary) _ h2 in
      let (_, keys, _) =
        >>=-eq-ok
          (throw_if
            (is_some (find (λ (x : GlossaryEntry). str_eq x.id fresh.id) store.glossary)
              || is_taken revision.id store.glossary)
            unique_violation)
          _ free in
      let none_there = throw_if-eq-ok _ unique_violation keys in
      subst AreVersioned (ap (λ (x : Entered). x.0) (ok-injective done)) (record {
        keyed =
            AreKeyed-append row_key store.glossary fresh
              (is_some-false (find (λ (x : GlossaryEntry). str_eq x.id fresh.id) store.glossary)
                (ground (arith, none_there)))
              are.keyed;
        versioned =
            All-append IsVersioned store.glossary (fresh ∷ []) are.versioned
              (first_entry-IsVersioned env scope normalized, tt);
      })
