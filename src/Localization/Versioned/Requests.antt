-- ===== src/Localization/Versioned/Requests.antt =====
-- What every request keeps of the revisions.
use voice_verse_ai.Common.{
  ◌≡◌, refl, ◌++◌, ◌∷◌, [], String, List, Option, none, some, Result, ok, err, foldl-keeps,
}
use voice_verse_ai.Ingest.Types.{AccessContext}
use voice_verse_ai.Localization.Types.{
  LocalizationAudit, LocalizationScene, GlossaryEntry, Store, LocalizationError,
}
use voice_verse_ai.Localization.Access.{EditEnv, commit, checked}
use voice_verse_ai.Localization.Scene.{put_scenes, update_scene, select_scene_revision}
use voice_verse_ai.Localization.Source.{
  SourceTables, put_sources, update_source_dialogue, select_source_revision,
}
use voice_verse_ai.Localization.Translation.{put_translations}
use voice_verse_ai.Localization.Translation.Edit.{update_translation, select_translation_revision}
use voice_verse_ai.Localization.Review.{update_translation_state}
use voice_verse_ai.Localization.Glossary.{put_glossary}
use voice_verse_ai.Localization.Glossary.Edit.{
  create_glossary_entry, update_glossary_entry, select_glossary_revision,
}
use voice_verse_ai.Localization.Track.Create.{TrackResponse, run_attempt, create_track_transaction}
use voice_verse_ai.Localization.Requests.{
  Edit, scene_edit, scene_choice, source_edit, source_choice, translation_edit, translation_choice,
  state_change, term_creation, term_edit, term_choice, Request, edit, track_attempt, run_edit,
  after_attempt, run_request, run_requests,
}
use voice_verse_ai.Localization.Writes.{commit-keeps, checked-keeps}
use voice_verse_ai.Localization.Types.{DialogueTranslation}
use voice_verse_ai.Localization.Versioned.{AreVersioned}
use voice_verse_ai.Localization.Versioned.Stores.{AreAllVersioned}
use voice_verse_ai.Localization.Versioned.Scenes.{
  edit_scene-AreVersioned, choose_scene-AreVersioned,
}
use voice_verse_ai.Localization.Versioned.Sources.{
  AreBothVersioned, edit_source-AreVersioned, choose_source-AreVersioned,
}
use voice_verse_ai.Localization.Versioned.Translations.{
  edit_translation-AreVersioned, choose_translation-AreVersioned, change_state-AreVersioned,
}
use voice_verse_ai.Localization.Versioned.Glossaries.{
  edit_entry-AreVersioned, choose_entry-AreVersioned, insert_entry-AreVersioned,
}
use voice_verse_ai.Localization.Versioned.Tracks.{create_track_transaction-AreAllVersioned}

audited :
    (store : Store) (entry : LocalizationAudit)
    → AreAllVersioned store
    → AreAllVersioned (record store { audit = store.audit ++ entry ∷ [] })
audited store entry k = record {
  scenes = k.scenes;
  dialogues = k.dialogues;
  translations = k.translations;
  glossary = k.glossary;
}

module _ (store : Store) (are : AreAllVersioned store) where
  scenes_put :
      (rows : List LocalizationScene) → AreVersioned rows → AreAllVersioned (put_scenes rows store)
  unfolding put_scenes
  scenes_put rows new = record {
    scenes = new;
    dialogues = are.dialogues;
    translations = are.translations;
    glossary = are.glossary;
  }

  sources_put :
      (tables : SourceTables) → AreBothVersioned tables → AreAllVersioned (put_sources tables store)
  unfolding put_sources
  sources_put tables (dialogues, translations) = record {
    scenes = are.scenes;
    dialogues = dialogues;
    translations = translations;
    glossary = are.glossary;
  }

  translations_put :
      (rows : List DialogueTranslation)
      → AreVersioned rows
      → AreAllVersioned (put_translations rows store)
  unfolding put_translations
  translations_put rows new = record {
    scenes = are.scenes;
    dialogues = are.dialogues;
    translations = new;
    glossary = are.glossary;
  }

  glossary_put :
      (rows : List GlossaryEntry) → AreVersioned rows → AreAllVersioned (put_glossary rows store)
  unfolding put_glossary
  glossary_put rows new = record {
    scenes = are.scenes;
    dialogues = are.dialogues;
    translations = are.translations;
    glossary = new;
  }

  -- A request keeps the revisions in order when its transaction does.
  kept {ℓ κ μ} :
      {C : Type ℓ} {T : Type κ} {A : Type μ} (rethrow : LocalizationError → LocalizationError)
      (write : T → Store → Store) (fault : Option LocalizationError)
      (checks : Result LocalizationError C)
      (outcome : C → Result LocalizationError (T × LocalizationAudit × A))
      → ((c : C) (tables : T) (entry : LocalizationAudit) (answer : A)
          → outcome c ≡ ok (tables, entry, answer)
          → AreAllVersioned (write tables store))
      → AreAllVersioned (checked store checks λ c. commit rethrow write fault store (outcome c)).0
  kept rethrow write fault checks outcome written =
      checked-keeps AreAllVersioned store checks _
        (λ c.
          commit-keeps AreAllVersioned rethrow write fault store (outcome c)
            (λ tables entry answer e. audited _ entry (written c tables entry answer e)) are)
        are

  run_edit-AreAllVersioned :
      (env : EditEnv) (context : AccessContext) (project track id : String) (input : Edit)
      → AreAllVersioned (run_edit env context project track id input store)
  unfolding run_edit update_scene select_scene_revision update_source_dialogue
      select_source_revision update_translation select_translation_revision update_translation_state
      create_glossary_entry update_glossary_entry select_glossary_revision
  run_edit-AreAllVersioned env context project track id (scene_edit input) =
      kept _ put_scenes env.fault _ _ (λ _ rows _ _ e.
        scenes_put rows
          (edit_scene-AreVersioned context project track id store are.scenes env input e))
  run_edit-AreAllVersioned env context project track id (scene_choice input) =
      kept _ put_scenes env.fault _ _ (λ _ rows _ _ e.
        scenes_put rows
          (choose_scene-AreVersioned context project track id store are.scenes input e))
  run_edit-AreAllVersioned env context project track id (source_edit input) =
      kept _ put_sources env.fault _ _ (λ text tables _ _ e. sources_put tables (
        edit_source-AreVersioned context project track id store are.dialogues are.translations env
          text input.expected_revision e))
  run_edit-AreAllVersioned env context project track id (source_choice input) =
      kept _ put_sources env.fault _ _ (λ _ tables _ _ e. sources_put tables (
        choose_source-AreVersioned context project track id store are.dialogues are.translations
          input e))
  run_edit-AreAllVersioned env context project track id (translation_edit translation input) =
      kept _ put_translations env.fault _ _ (λ text rows _ _ e. translations_put rows (
        edit_translation-AreVersioned context project track id store are.translations env
          translation text input.expected_revision e))
  run_edit-AreAllVersioned env context project track id (translation_choice input) =
      kept _ put_translations env.fault _ _ (λ _ rows _ _ e.
        translations_put rows
          (choose_translation-AreVersioned context project track id store are.translations input e))
  run_edit-AreAllVersioned env context project track id (state_change input) =
      kept _ put_translations env.fault _ _ (λ _ rows _ _ e.
        translations_put rows
          (change_state-AreVersioned context project track id store are.translations input e))
  run_edit-AreAllVersioned env context project track id (term_creation input) =
      kept _ put_glossary env.fault _ _ (λ normalized rows _ _ e.
        glossary_put rows
          (insert_entry-AreVersioned context project track store are.glossary env normalized e))
  run_edit-AreAllVersioned env context project track id (term_edit input) =
      kept _ put_glossary env.fault _ _ (λ normalized rows _ _ e. glossary_put rows (
        edit_entry-AreVersioned context project track id store are.glossary env normalized
          input.expected_revision e))
  run_edit-AreAllVersioned env context project track id (term_choice input) =
      kept _ put_glossary env.fault _ _ (λ _ rows _ _ e.
        glossary_put rows
          (choose_entry-AreVersioned context project track id store are.glossary input e))

run_request-AreAllVersioned :
    (store : Store) (request : Request)
    → AreAllVersioned store
    → AreAllVersioned (run_request store request)
unfolding run_request
run_request-AreAllVersioned store (edit env context project track id input) are =
    run_edit-AreAllVersioned store are env context project track id input
run_request-AreAllVersioned store (track_attempt env context project input catalog fault) are =
    go fault (create_track_transaction env context project input catalog store) refl
  where
    go :
        (fault : Option LocalizationError) (r : Result LocalizationError (Store × TrackResponse))
        → create_track_transaction env context project input catalog store ≡ r
        → AreAllVersioned (after_attempt store (run_attempt fault r))
    go fault (err e) h = unfold run_attempt after_attempt in are
    go none (ok done) h =
        unfold run_attempt after_attempt in
        create_track_transaction-AreAllVersioned env context project input catalog store h are
    go (some e) (ok done) h = unfold run_attempt after_attempt in are

-- Histories stay in order: whatever sequence of requests runs, if before it the rows of scenes, dialogues,
-- translations and glossary entries have ids of their own, the revisions of each are numbered upwards from
-- at least 1 in the order in which they stand, and each selection names a revision of its resource, the
-- same is so after it.
pub run_requests-AreAllVersioned :
    (requests : List Request) (store : Store)
    → AreAllVersioned store
    → AreAllVersioned (run_requests requests store)
unfolding run_requests
run_requests-AreAllVersioned requests store are =
    foldl-keeps AreAllVersioned run_request run_request-AreAllVersioned requests store are
