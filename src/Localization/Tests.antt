-- ===== src/Localization/Tests.antt =====
-- Runs of the localization service, and the theorems at concrete inputs.
use voice_verse_ai.Common.{◌≡◌, refl, true, none, some, String, List, [], ◌∷◌, Option}
use voice_verse_ai.Ingest.Types.{AccessContext, editor}
use voice_verse_ai.Ingest.Tables.{find, update}
use voice_verse_ai.Ingest.Create.{is_some}
use voice_verse_ai.Localization.Types.{
  Scope, Revision, Selection, LocalizedDialogue, LocalizationTrack, Store, TranslationEditorState,
  draft, in_review, approved,
}
use voice_verse_ai.Localization.Access.{EditEnv}
use voice_verse_ai.Localization.Requests.{
  Edit, source_edit, translation_edit, state_change, Request, edit, run_requests,
}
use voice_verse_ai.Localization.Sound.{IsSound}
use voice_verse_ai.Localization.Sound.Requests.{run_requests-IsSound}
use voice_verse_ai.Localization.Requests.{run_request, run_edit}
use voice_verse_ai.Localization.Review.{
  update_translation_state, change_state, assert_editor_state_transition, can_move, is_draft,
  is_outdated, active_source_id, move_state, state_action, state_text,
}
use voice_verse_ai.Localization.Access.{
  checked, assert_can_edit, assert_uuid, commit, owned_track, scope_of, new_revision,
  rethrow_write_conflict, audit_entry,
}
use voice_verse_ai.Ingest.Checks.{is_viewer}
use voice_verse_ai.Ingest.Patterns.{matches_uuid}
use voice_verse_ai.Localization.Translation.Edit.{
  update_translation, edit_translation, activate_translation, write_translation,
}
use voice_verse_ai.Localization.Values.{normalize_required_editorial_text}
use voice_verse_ai.Localization.Source.{
  owned_dialogue, update_source_dialogue, edit_source, write_source, activate_source,
  cas_source_selection, is_translation_of, reopen, reopen_translations_after_source_change,
  put_sources,
}
use voice_verse_ai.Localization.Types.{same_scope}
use voice_verse_ai.Localization.Versions.{
  is_owned, selected_revision, max_revision_number, next_revision_number, assert_expected_revision,
  selected_at, reselect, is_hit, cas_selection, is_taken, add_revision, require_selection, require,
}
use voice_verse_ai.Localization.Translation.{
  is_owned_translation, selection_revision_of, has_active_text, new_translation, ensure_translation,
  create_selection, put_translations, to_translation_revision_response,
}
use voice_verse_ai.Common.{text_eq, All, ◌<◌, arith, subst}
use voice_verse_ai.Localization.Versions.{has_revision_id}
use voice_verse_ai.Localization.History.Order.{IsIncreasing}
use voice_verse_ai.Common.{Result, ok, err}
use voice_verse_ai.Ingest.Types.{owner}
use voice_verse_ai.Localization.Types.{LocalizationError}
use voice_verse_ai.Localization.Source.{
  UpdateSource, SourceRevisionResponse, to_source_revision_response,
}
use voice_verse_ai.Localization.Stale.Sources.{update_source_dialogue-stale}
use voice_verse_ai.Common.{false}
use voice_verse_ai.Localization.Glossary.{GlossaryInput}
use voice_verse_ai.Localization.Glossary.Edit.{create_glossary_entry}
use voice_verse_ai.Localization.Glossary.Limit.{
  AreWithinLimit, create_glossary_entry-AreWithinLimit,
}
use voice_verse_ai.Localization.Versioned.{IsVersioned, HasRevision}
use voice_verse_ai.Localization.Versioned.Stores.{AreAllVersioned}
use voice_verse_ai.Localization.Versioned.Requests.{run_requests-AreAllVersioned}
use voice_verse_ai.Localization.Values.{deterministic_localization_uuid}
use voice_verse_ai.Localization.Values.Shape.{deterministic_localization_uuid-matches_uuid}

abbrev pub project_id : String
project_id = "019f1a2b-3c4d-7e5f-8a6b-7c8d9e0f1a01"

abbrev pub track_id : String
track_id = "019f1a2b-3c4d-7e5f-8a6b-7c8d9e0f1a02"

abbrev dialogue_id : String
dialogue_id = "019f1a2b-3c4d-7e5f-8a6b-7c8d9e0f1a03"

abbrev pub scope : Scope
scope = record { organization_id = "org"; project_id = project_id; workspace_id = "workspace" }

abbrev pub context : AccessContext
context = record { user_id = "user"; organization_id = "org"; role = editor }

abbrev first_source : Revision String
first_source = record {
  id = "source-1";
  revision_number = 1;
  created_by_user_id = "user";
  created_at = 0;
  content = "Good morning.";
}

abbrev first_selection : Selection (Unit {0})
first_selection = record {
  revision = 1;
  selected_revision_id = "source-1";
  updated_by_user_id = "user";
  state = tt;
}

abbrev pub dialogue : LocalizedDialogue
dialogue = record {
  id = dialogue_id;
  scope = scope;
  owner = record {
    scene_id = "scene";
    dialogue_segment_id = "segment";
    speech_analysis_id = "analysis";
    sequence_number = 1;
    start_time_us = 0;
    end_time_us = 1500000;
    created_by_user_id = "user";
  };
  revisions = first_source ∷ [];
  selection = some first_selection;
}

abbrev pub track : LocalizationTrack
track = record {
  id = track_id;
  scope = scope;
  target_language_id = "de";
  created_at = 0;
  created_by_user_id = "user";
}

abbrev pub tables : Store
tables = record {
  workspaces = [];
  tracks = track ∷ [];
  scenes = [];
  dialogues = dialogue ∷ [];
  translations = [];
  glossary = [];
  audit = [];
}

abbrev env : String → EditEnv
env id = record {
  nfc = λ s. s;
  to_lower_case = λ s. s;
  revision_id = id;
  entry_id = "entry";
  now = 5;
  fault = none;
}

abbrev request : String → Edit → Request
request id input = edit (env id) context project_id track_id dialogue_id input

-- A translation is written, reviewed and approved, and the source is edited after that.
abbrev reviewed : List Request
reviewed =
    request "revision-1" (
      translation_edit "translation"
        (record { target_text = "Guten Morgen."; expected_revision = 0 }))
    ∷ request "" (state_change (record { state = in_review; expected_revision = 1 }))
    ∷ request "" (state_change (record { state = approved; expected_revision = 2 }))
    ∷ []

abbrev reopened : Request
reopened =
    request "source-2"
      (source_edit (record { source_text = "Good evening."; expected_revision = 1 }))

unfoldable state_of : Store → Option TranslationEditorState
state_of store = elim store.translations [
  | [] ↦ none
  | t ∷ ts ↦ elim t.selection [ none ↦ none | some s ↦ some s.state ]
]

approved_test :
    (state_of (run_requests reviewed tables) ≡ some approved)
    × (state_of (run_requests (reopened ∷ []) (run_requests reviewed tables)) ≡ some draft)
unfolding state_of run_requests find update is_some run_request run_edit update_translation_state
    change_state assert_editor_state_transition can_move is_draft is_outdated active_source_id
    move_state state_action state_text checked assert_can_edit assert_uuid commit owned_track
    scope_of new_revision rethrow_write_conflict audit_entry is_viewer matches_uuid
    update_translation edit_translation activate_translation write_translation
    normalize_required_editorial_text owned_dialogue update_source_dialogue edit_source write_source
    activate_source cas_source_selection is_translation_of reopen
    reopen_translations_after_source_change put_sources same_scope is_owned selected_revision
    max_revision_number next_revision_number assert_expected_revision selected_at reselect is_hit
    cas_selection is_taken add_revision require_selection require is_owned_translation
    selection_revision_of has_active_text new_translation ensure_translation create_selection
    put_translations to_translation_revision_response text_eq
approved_test = (refl, refl)

tables-IsSound : IsSound tables
unfolding find
tables-IsSound = record {
  tracks_keyed = (refl, tt);
  translations_keyed = tt;
  linked = tt;
  settled = tt;
}

run_requests-IsSound_example : IsSound (run_requests reviewed tables)
run_requests-IsSound_example = run_requests-IsSound reviewed tables tables-IsSound

first_is_first : find (has_revision_id "source-1") dialogue.revisions ≡ some first_source
unfolding find
first_is_first = refl

dialogue-IsVersioned : IsVersioned dialogue
dialogue-IsVersioned =
    let increasing : IsIncreasing dialogue.revisions = (tt, tt) in
    let numbers : All (λ (r : Revision String). 0 < r.revision_number) dialogue.revisions =
      (omega arith, tt) in
    (
      (increasing, numbers),
      λ s e.
          let same : first_selection ≡ s = cc e in
          subst
            (λ (t : Selection (Unit {0})). HasRevision dialogue.revisions t.selected_revision_id)
            same (first_source, first_is_first),
    )

tables-AreAllVersioned : AreAllVersioned tables
unfolding find
tables-AreAllVersioned = record {
  scenes = record { keyed = tt; versioned = tt };
  dialogues = record { keyed = (refl, tt); versioned = (dialogue-IsVersioned, tt) };
  translations = record { keyed = tt; versioned = tt };
  glossary = record { keyed = tt; versioned = tt };
}

run_requests-AreAllVersioned_example : AreAllVersioned (run_requests reviewed tables)
run_requests-AreAllVersioned_example =
    run_requests-AreAllVersioned reviewed tables tables-AreAllVersioned

deterministic_localization_uuid-matches_uuid_example :
    matches_uuid (deterministic_localization_uuid (λ s. 255 ∷ 16 ∷ []) "translation-generation")
    ≡ true
deterministic_localization_uuid-matches_uuid_example =
    deterministic_localization_uuid-matches_uuid (λ s. 255 ∷ 16 ∷ []) "translation-generation"

abbrev evening : UpdateSource
evening = record { source_text = "Good evening."; expected_revision = 1 }

abbrev night : UpdateSource
night = record { source_text = "Good night."; expected_revision = 1 }

abbrev edited : Store × Result LocalizationError SourceRevisionResponse
edited =
    update_source_dialogue (env "source-2") context project_id track_id dialogue_id evening tables

abbrev edit_answer : SourceRevisionResponse
edit_answer = record {
  id = "source-2";
  dialogue_id = dialogue_id;
  revision_number = 2;
  selection_revision = some 2;
  source_text = "Good evening.";
  created_at = 5;
  created_by_user_id = "user";
}

edit_answered : edited ≡ (edited.0, ok edit_answer)
unfolding find update is_some checked assert_can_edit assert_uuid commit owned_track scope_of
    new_revision audit_entry is_viewer matches_uuid normalize_required_editorial_text owned_dialogue
    update_source_dialogue edit_source write_source activate_source cas_source_selection same_scope
    is_owned selected_revision max_revision_number next_revision_number assert_expected_revision
    selected_at reselect is_hit cas_selection is_taken add_revision require_selection require
    put_sources to_source_revision_response reopen_translations_after_source_change
edit_answered = refl

update_source_dialogue-stale_example :
    (e : LocalizationError) × (update_source_dialogue
        (env "source-3")
        (record context { user_id = "other"; role = owner })
        project_id
        track_id
        dialogue_id
        night
        edited.0
      ≡ (edited.0, err e))
update_source_dialogue-stale_example =
    update_source_dialogue-stale (env "source-2") (env "source-3") context "other" owner project_id
      track_id dialogue_id evening night tables edited.0 edit_answer edit_answered refl

abbrev term : GlossaryInput
term = record {
  source_term = "morning";
  target_term = some "Morgen";
  notes = none;
  case_sensitive = false;
  do_not_translate = false;
}

tables-AreWithinLimit : AreWithinLimit tables.glossary
tables-AreWithinLimit scope track_id = omega arith

create_glossary_entry-AreWithinLimit_example :
    AreWithinLimit
      (create_glossary_entry (env "term-1") context project_id track_id term tables).0.glossary
create_glossary_entry-AreWithinLimit_example =
    create_glossary_entry-AreWithinLimit (env "term-1") context project_id track_id term tables
      tables-AreWithinLimit
