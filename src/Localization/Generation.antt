-- ===== src/Localization/Generation.antt =====
-- `createGenerationTransaction` of the localization service: what a translation of a scene is made from.
use Prim.Native.String
use Prim.Native.String.{compare as compare_text}
use voice_verse_ai.Common.{
  ℕ, suc, ◌+◌, String, Bool, true, false, not, ◌&&◌, ◌||◌, ltb, if◌then◌else◌, Option, none, some,
  List, [], ◌∷◌, map, length, keep, Ordering, compare, str_eq, Result, ok, err, ◌>>=◌, ◌>>◌,
  throw_if,
}
use voice_verse_ai.Common.Sort.{Comparator, or_else, sort_by}
use voice_verse_ai.Common.Take.{take}
use voice_verse_ai.Ingest.Tables.{find}
use voice_verse_ai.Ingest.Create.{is_some}
use voice_verse_ai.Localization.Types.{
  Scope, same_scope, Revision, Selection, SceneContent, LocalizationScene, LocalizedDialogue,
  DialogueTranslation, TranslationEditorState, GlossaryEntry, GlossaryKey, NormalizedGlossaryInput,
  Store, LocalizationError, scene_without_dialogue, too_many_dialogues, no_active_source,
  source_too_long, too_many_terms, timing_out_of_range, snapshot_too_large,
}
use voice_verse_ai.Localization.Versions.{selected_revision}
use voice_verse_ai.Localization.Translation.{is_of_track}
use voice_verse_ai.Localization.Glossary.{is_of_glossary}
use voice_verse_ai.Localization.Json.{
  CanonicalJson, json_null, json_boolean, json_number, json_string, json_array, or_null, object_of,
  items_of, stable_json,
}
pub mod Snapshots
pub mod Create
pub mod Again
mod Tests

-- The character that a dialogue segment is assigned to.
pub record Speaker : Type 0 where
  pub dialogue_segment_id : String
  pub character_id : String
  pub display_name : Option String
  pub stable_key : String

-- `TRANSLATION_…` of the environment.
pub record TranslationConfig : Type 0 where
  pub enabled : Bool
  pub model_id : String
  pub model_revision : String
  pub provider : String
  pub runtime_version : String
  pub prompt_version : String

-- `orderBy: [{ sequenceNumber: 'asc' }, { id: 'asc' }]`
unfoldable pub in_sequence : Comparator LocalizedDialogue
unfolding or_else
in_sequence a b =
    or_else (compare a.owner.sequence_number b.owner.sequence_number) (compare_text a.id b.id)

-- The dialogues of a scene that the query returns.
unfoldable pub scene_dialogues : ℕ → String → Store → List LocalizedDialogue
scene_dialogues limit scene_id store = take limit (
    sort_by in_sequence
      (keep (λ (d : LocalizedDialogue). str_eq d.owner.scene_id scene_id) store.dialogues))

unfoldable pub active_source : LocalizedDialogue → Result LocalizationError (Revision String)
active_source dialogue = elim dialogue.selection [
  | none ↦ err no_active_source
  | some selection ↦ selected_revision dialogue.revisions selection
]

unfoldable pub some_without_source : List LocalizedDialogue → Bool
unfolding is_some
some_without_source [] = false
some_without_source (d ∷ ds) = not (is_some d.selection) || some_without_source ds

unfoldable pub is_too_long : String → Bool
is_too_long text = ltb 20000 (String.count text) || ltb 65536 (String.len text)

-- The dialogues with their active source revisions.
unfoldable pub with_sources :
    List LocalizedDialogue → Result LocalizationError (List (LocalizedDialogue × Revision String))
with_sources [] = ok []
with_sources (d ∷ ds) =
    let rest = with_sources ds in
    do source ← active_source d; others ← rest; ok ((d, source) ∷ others)

unfoldable pub some_too_long : List (LocalizedDialogue × Revision String) → Bool
unfolding is_too_long
some_too_long [] = false
some_too_long ((_, source) ∷ ds) = is_too_long source.content || some_too_long ds

abbrev pub dialogue_limit : ℕ
dialogue_limit = 200

-- The dialogues of the scene and their sources, within the limits of the executor.
unfoldable pub sources_of :
    String → Store → Result LocalizationError (List (LocalizedDialogue × Revision String))
sources_of scene_id store =
    let dialogues = scene_dialogues (dialogue_limit + 1) scene_id store in
    do
      throw_if (not (ltb 0 (length dialogues))) scene_without_dialogue
      throw_if (ltb dialogue_limit (length dialogues)) too_many_dialogues
      throw_if (some_without_source dialogues) no_active_source
      sources ← with_sources dialogues
      throw_if (some_too_long sources) source_too_long
      ok sources

-- A term that is active, with its entry.
pub record ActiveTerm : Type 0 where
  pub entry_id : String
  pub normalized_source_term : String
  pub revision : Revision NormalizedGlossaryInput

unfoldable pub active_entries : List GlossaryEntry → Result LocalizationError (List ActiveTerm)
active_entries [] = ok []
active_entries (entry ∷ entries) =
    let rest = active_entries entries in
    elim entry.selection [
      | none ↦ rest
      | some selection ↦ do
        revision ← selected_revision entry.revisions selection
        others ← rest
        ok (
            record {
              entry_id = entry.id;
              normalized_source_term = selection.state.selected_normalized_source_term;
              revision = revision;
            }
            ∷ others)
    ]

-- By the term and then by the entry, in the order of code units.
unfoldable pub by_term : Comparator ActiveTerm
unfolding or_else
by_term a b =
    or_else (compare_text a.normalized_source_term b.normalized_source_term)
      (compare_text a.entry_id b.entry_id)

-- The entries of the track that have a selection, in the order of their ids, one more than the limit.
unfoldable pub selected_entries : Scope → String → Store → List GlossaryEntry
unfolding is_some
selected_entries scope track_id store = take 201 (
    sort_by (λ (a b : GlossaryEntry). compare_text a.id b.id)
      (keep (λ (e : GlossaryEntry). is_some e.selection && is_of_glossary scope track_id e)
        store.glossary))

unfoldable pub terms_of : Scope → String → Store → Result LocalizationError (List ActiveTerm)
terms_of scope track_id store = do
  throw_if (ltb 200 (length (selected_entries scope track_id store))) too_many_terms
  terms ← active_entries (selected_entries scope track_id store)
  ok (sort_by by_term terms)
