-- ===== src/Localization/Generation/Snapshots.antt =====
-- The snapshots that a generation keeps of its input, its context and its configuration.
use Prim.Native.String
use Prim.Native.String.{compare as compare_text}
use voice_verse_ai.Common.{
  ℕ, suc, String, ltb, if◌then◌else◌, Option, none, some, List, [], ◌∷◌, map, str_eq, Result, ok,
  err, ◌>>=◌, throw_if,
}
use voice_verse_ai.Ingest.Tables.{find}
use voice_verse_ai.Localization.Types.{
  Revision, Selection, SceneContent, LocalizedDialogue, DialogueTranslation, TranslationEditorState,
  Store, LocalizationError, timing_out_of_range, snapshot_too_large,
}
use voice_verse_ai.Localization.Translation.{is_of_track}
use voice_verse_ai.Localization.Json.{
  CanonicalJson, json_boolean, json_number, json_string, json_array, or_null, object_of, items_of,
  stable_json,
}
use voice_verse_ai.Localization.Generation.{Speaker, TranslationConfig, ActiveTerm}

unfoldable pub safe_microseconds : ℕ → Result LocalizationError ℕ
safe_microseconds value = if ltb value 9007199254740992 then ok value else err timing_out_of_range

-- `character.displayName ?? character.stableKey`
unfoldable pub speaker_snapshot : Speaker → CanonicalJson
speaker_snapshot speaker = object_of (
    ("characterId", json_string speaker.character_id)
    ∷ (
      "name",
      json_string (elim speaker.display_name [ none ↦ speaker.stable_key | some name ↦ name ]),
    )
    ∷ [])

unfoldable pub selection_of : Option DialogueTranslation → Option (Selection TranslationEditorState)
selection_of none = none
selection_of (some translation) = translation.selection

unfoldable pub dialogue_snapshot :
    List Speaker
    → Option DialogueTranslation
    → ℕ
    → LocalizedDialogue × Revision String
    → Result LocalizationError CanonicalJson
dialogue_snapshot speakers translation ordinal (dialogue, source) = do
  end ← safe_microseconds dialogue.owner.end_time_us
  start ← safe_microseconds dialogue.owner.start_time_us
  ok (
      object_of (
        (
          "character",
          or_null speaker_snapshot (
              find
                (λ (s : Speaker). str_eq s.dialogue_segment_id dialogue.owner.dialogue_segment_id)
                speakers),
        )
        ∷ ("dialogueId", json_string dialogue.id)
        ∷ ("endUs", json_number end)
        ∷ ("ordinal", json_number ordinal)
        ∷ ("sourceRevisionId", json_string source.id)
        ∷ ("sourceText", json_string source.content)
        ∷ ("startUs", json_number start)
        ∷ ("translationId", or_null (λ (t : DialogueTranslation). json_string t.id) translation)
        ∷ (
          "translationRevisionId",
          or_null (λ (s : Selection TranslationEditorState). json_string s.selected_revision_id)
              (selection_of translation),
        )
        ∷ (
          "translationSelectionRevision",
          or_null (λ (s : Selection TranslationEditorState). json_number s.revision)
              (selection_of translation),
        )
        ∷ []))

-- The snapshots of the dialogues, numbered from 0.
unfoldable pub dialogue_snapshots :
    List Speaker
    → String
    → Store
    → ℕ
    → List (LocalizedDialogue × Revision String)
    → Result LocalizationError (List CanonicalJson)
dialogue_snapshots speakers track_id store ordinal [] = ok []
dialogue_snapshots speakers track_id store ordinal (d ∷ ds) =
    let rest = dialogue_snapshots speakers track_id store (suc ordinal) ds in
    do
      snapshot ←
          dialogue_snapshot speakers (find (is_of_track track_id d.0.id) store.translations) ordinal
            d
      others ← rest
      ok (snapshot ∷ others)

unfoldable pub term_snapshot : ActiveTerm → CanonicalJson
term_snapshot term =
    let content = term.revision.content in
    object_of (
      ("caseSensitive", json_boolean content.case_sensitive)
      ∷ ("doNotTranslate", json_boolean content.do_not_translate)
      ∷ ("glossaryRevisionId", json_string term.revision.id)
      ∷ ("notes", or_null json_string content.notes)
      ∷ ("sourceTerm", json_string content.source_term)
      ∷ ("targetTerm", or_null json_string content.target_term)
      ∷ [])

unfoldable pub configuration_snapshot : TranslationConfig → CanonicalJson
configuration_snapshot config = object_of (
    (
      "expectedModel",
      object_of (
          ("modelId", json_string config.model_id)
          ∷ ("modelRevision", json_string config.model_revision)
          ∷ ("provider", json_string config.provider)
          ∷ ("runtimeVersion", json_string config.runtime_version)
          ∷ []),
    )
    ∷ ("promptVersion", json_string config.prompt_version)
    ∷ ("schemaVersion", json_string "voiceverse.translation-configuration.v1")
    ∷ [])

unfoldable pub input_snapshot :
    List CanonicalJson → List ActiveTerm → String → String → CanonicalJson
input_snapshot dialogues terms source_tag target_tag = object_of (
    ("dialogues", json_array (items_of dialogues))
    ∷ ("glossaryRevisions", json_array (items_of (map term_snapshot terms)))
    ∷ ("schemaVersion", json_string "voiceverse.translation-input.v1")
    ∷ ("sourceLanguageTag", json_string source_tag)
    ∷ ("targetLanguageTag", json_string target_tag)
    ∷ [])

unfoldable pub context_snapshot : Revision SceneContent → CanonicalJson
context_snapshot scene = object_of (
    (
      "sceneContext",
      object_of (
          ("culturalNotes", or_null json_string scene.content.cultural_context)
          ∷ ("narrative", or_null json_string scene.content.summary)
          ∷ ("sceneRevisionId", json_string scene.id)
          ∷ ("title", or_null json_string scene.content.title)
          ∷ []),
    )
    ∷ ("schemaVersion", json_string "voiceverse.translation-context.v1")
    ∷ [])

-- `assertSnapshotSize`, with the limit of the kind of snapshot.
unfoldable pub assert_snapshot_size :
    (String → String) → ℕ → CanonicalJson → Result LocalizationError (Unit {0})
assert_snapshot_size quote limit snapshot =
    throw_if (ltb limit (String.len (stable_json quote snapshot))) snapshot_too_large
