-- ===== src/Localization/History/Lists.antt =====
-- `listSceneRevisions`, `listSourceRevisions`, `listTranslationRevisions`, `listGlossaryRevisions` and
-- `listGlossary` of the localization service.
use voice_verse_ai.Common.{
  ℕ, ◌+◌, String, ltb, Option, none, some, List, [], ◌∷◌, length, keep, Ordering, compare, Result,
  ok, ◌>>=◌, ◌>>◌, throw_if,
}
use voice_verse_ai.Common.Sort.{Comparator, or_else, sort_by}
use voice_verse_ai.Ingest.Types.{AccessContext}
use voice_verse_ai.Ingest.Tables.{find}
use voice_verse_ai.Localization.Types.{
  Selection, GlossaryEntry, DialogueTranslation, TranslationEditorState, draft, Store,
  LocalizationError, scene_not_found, source_not_found, glossary_entry_not_found, glossary_full,
}
use voice_verse_ai.Localization.Versions.{is_owned, require_selection, selected_revision}
use voice_verse_ai.Localization.Access.{assert_uuid, owned_track, scope_of}
use voice_verse_ai.Localization.Scene.{SceneRevisionResponse, to_scene_revision_response}
use voice_verse_ai.Localization.Source.{
  owned_dialogue, SourceRevisionResponse, to_source_revision_response,
}
use voice_verse_ai.Localization.Translation.{
  is_of_track, TranslationRevisionResponse, to_translation_revision_response,
}
use voice_verse_ai.Localization.Glossary.{
  GlossaryRevisionResponse, to_glossary_revision_response, owned_glossary_entry, is_of_glossary,
  glossary_limit,
}
use voice_verse_ai.Localization.History.{CursorCodec, Page, history_page}
use voice_verse_ai.Common.Take.{take}

-- `ListLocalizationHistoryQueryDto`
pub record HistoryQuery : Type 0 where
  pub cursor : Option String
  pub limit : ℕ

unfoldable pub list_scene_revisions :
    CursorCodec
    → AccessContext
    → String
    → String
    → String
    → HistoryQuery
    → Store
    → Result LocalizationError (Page SceneRevisionResponse)
list_scene_revisions codec context project_id track_id scene_id query store = do
  assert_uuid scene_id "scene"
  track ← owned_track context project_id track_id store
  found ←
      require_selection scene_not_found
        (find (is_owned scene_id (scope_of context project_id track)) store.scenes)
  history_page codec scene_id (("sceneId", scene_id) ∷ []) query.cursor query.limit
      found.0.revisions (some found.1.selected_revision_id, found.1.revision)
      (λ revision. to_scene_revision_response scene_id revision none)

unfoldable pub list_source_revisions :
    CursorCodec
    → AccessContext
    → String
    → String
    → String
    → HistoryQuery
    → Store
    → Result LocalizationError (Page SourceRevisionResponse)
list_source_revisions codec context project_id track_id dialogue_id query store = do
  assert_uuid dialogue_id "dialogue"
  track ← owned_track context project_id track_id store
  dialogue ← owned_dialogue (scope_of context project_id track) dialogue_id store
  found ← require_selection source_not_found (some dialogue)
  history_page codec dialogue_id (("localizedDialogueId", dialogue_id) ∷ []) query.cursor
      query.limit dialogue.revisions (some found.1.selected_revision_id, found.1.revision)
      (λ revision. to_source_revision_response dialogue_id revision none)

-- `translation.selection ?? { revision: 0, selectedRevisionId: null }`
unfoldable pub selection_or_none {ℓ} : {X : Type ℓ} → Option (Selection X) → Option String × ℕ
selection_or_none none = (none, 0)
selection_or_none (some selection) = (some selection.selected_revision_id, selection.revision)

-- `translation.selection?.editorState ?? DRAFT`
unfoldable pub editor_state_of : Option (Selection TranslationEditorState) → TranslationEditorState
editor_state_of none = draft
editor_state_of (some selection) = selection.state

-- The history of a translation that is there. Its rows have two of the four columns.
unfoldable pub translation_history :
    CursorCodec
    → DialogueTranslation
    → HistoryQuery
    → Result LocalizationError (Page TranslationRevisionResponse)
translation_history codec translation query =
    history_page codec translation.id
      (("localizedDialogueId", translation.owner.localized_dialogue_id)
        ∷ ("dialogueTranslationId", translation.id)
        ∷ [])
      query.cursor query.limit translation.revisions (selection_or_none translation.selection)
      (λ revision.
        to_translation_revision_response translation revision
          (editor_state_of translation.selection) none)

unfoldable pub list_translation_revisions :
    CursorCodec
    → AccessContext
    → String
    → String
    → String
    → HistoryQuery
    → Store
    → Result LocalizationError (Page TranslationRevisionResponse)
list_translation_revisions codec context project_id track_id dialogue_id query store = do
  assert_uuid dialogue_id "dialogue"
  track ← owned_track context project_id track_id store
  _ ← owned_dialogue (scope_of context project_id track) dialogue_id store
  elim (find (is_of_track track_id dialogue_id) store.translations) [
    | none ↦ ok (record {
      rows = [];
      next_cursor = none;
      selected_revision_id = none;
      selection_revision = 0;
    })
    | some translation ↦ translation_history codec translation query
  ]

unfoldable pub list_glossary_revisions :
    CursorCodec
    → AccessContext
    → String
    → String
    → String
    → HistoryQuery
    → Store
    → Result LocalizationError (Page GlossaryRevisionResponse)
list_glossary_revisions codec context project_id track_id entry_id query store = do
  assert_uuid entry_id "glossary entry"
  track ← owned_track context project_id track_id store
  entry ← owned_glossary_entry (scope_of context project_id track) track_id entry_id store
  found ← require_selection glossary_entry_not_found (some entry)
  history_page codec entry_id (("glossaryEntryId", entry_id) ∷ []) query.cursor query.limit
      entry.revisions (some found.1.selected_revision_id, found.1.revision)
      (λ revision. to_glossary_revision_response entry_id revision none)

-- `orderBy: [{ createdAt: 'asc' }, { id: 'asc' }]`
unfoldable pub oldest_first : (String → String → Ordering) → Comparator GlossaryEntry
unfolding or_else
oldest_first compare_ids a b =
    or_else (compare a.owner.created_at b.owner.created_at) (compare_ids a.id b.id)

-- The answer's order of terms.
unfoldable pub by_source_term : (String → String → Ordering) → Comparator GlossaryRevisionResponse
unfolding or_else
by_source_term locale_compare a b =
    or_else (locale_compare a.source_term b.source_term) (locale_compare a.entry_id b.entry_id)

-- The entries that have a selection, with their active revisions.
unfoldable pub active_terms :
    List GlossaryEntry → Result LocalizationError (List GlossaryRevisionResponse)
active_terms [] = ok []
active_terms (entry ∷ entries) =
    let rest = active_terms entries in
    elim entry.selection [
      | none ↦ rest
      | some selection ↦ do
        revision ← selected_revision entry.revisions selection
        others ← rest
        ok (to_glossary_revision_response entry.id revision (some selection.revision) ∷ others)
    ]

unfoldable pub list_glossary :
    (String → String → Ordering)
    → (String → String → Ordering)
    → AccessContext
    → String
    → String
    → Store
    → Result LocalizationError (List GlossaryRevisionResponse)
list_glossary compare_ids locale_compare context project_id track_id store = do
  track ← owned_track context project_id track_id store
  throw_if
      (ltb glossary_limit (
        length (
          take (glossary_limit + 1) (
            sort_by (oldest_first compare_ids) (
              keep (is_of_glossary (scope_of context project_id track) track_id) store.glossary)))))
      glossary_full
  terms ← active_terms (
      take (glossary_limit + 1) (
        sort_by (oldest_first compare_ids)
          (keep (is_of_glossary (scope_of context project_id track) track_id) store.glossary)))
  ok (sort_by (by_source_term locale_compare) terms)
