-- ===== src/Localization/Sound/Requests.antt =====
-- What every request keeps.
use voice_verse_ai.Common.{
  ◌≡◌, refl, ◌++◌, ◌∷◌, [], String, List, Option, none, some, Result, ok, err, foldl-keeps,
}
use voice_verse_ai.Ingest.Types.{AccessContext}
use voice_verse_ai.Localization.Types.{
  LocalizationAudit, LocalizationScene, GlossaryEntry, Store, LocalizationError,
}
use voice_verse_ai.Localization.Access.{EditEnv, commit, checked}
use voice_verse_ai.Localization.Scene.{put_scenes, update_scene, select_scene_revision}
use voice_verse_ai.Localization.Source.{put_sources, update_source_dialogue, select_source_revision}
use voice_verse_ai.Localization.Translation.{put_translations}
use voice_verse_ai.Localization.Translation.Edit.{update_translation, select_translation_revision}
use voice_verse_ai.Localization.Review.{update_translation_state}
use voice_verse_ai.Localization.Glossary.{put_glossary}
use voice_verse_ai.Localization.Glossary.Edit.{
  create_glossary_entry, update_glossary_entry, select_glossary_revision,
}
use voice_verse_ai.Localization.Track.Create.{TrackResponse, run_attempt, create_track_transaction}
use voice_verse_ai.Localization.Requests.{
  Edit, scene_edit, scene_choice, source_edit, source_choice, translation_edit, translation_choice,
  state_change, term_creation, term_edit, term_choice, Request, edit, track_attempt, run_edit,
  after_attempt, run_request, run_requests,
}
use voice_verse_ai.Localization.Writes.{commit-keeps, checked-keeps}
use voice_verse_ai.Localization.Sound.{IsSound}
use voice_verse_ai.Localization.Sound.Sources.{edit_source-IsSound, choose_source-IsSound}
use voice_verse_ai.Localization.Sound.Edits.{put-IsSound}
use voice_verse_ai.Localization.Sound.Reviews.{
  edit_translation-AreSound, choose_translation-AreSound, change_state-AreSound,
}
use voice_verse_ai.Localization.Sound.Tracks.{create_track_transaction-IsSound}

audited :
    (store : Store) (entry : LocalizationAudit)
    → IsSound store
    → IsSound (record store { audit = store.audit ++ entry ∷ [] })
audited store entry k = record {
  tracks_keyed = k.tracks_keyed;
  translations_keyed = k.translations_keyed;
  linked = k.linked;
  settled = k.settled;
}

module _ (store : Store) (sound : IsSound store) where
  scenes_kept : (scenes : List LocalizationScene) → IsSound (put_scenes scenes store)
  unfolding put_scenes
  scenes_kept scenes = record {
    tracks_keyed = sound.tracks_keyed;
    translations_keyed = sound.translations_keyed;
    linked = sound.linked;
    settled = sound.settled;
  }

  glossary_kept : (entries : List GlossaryEntry) → IsSound (put_glossary entries store)
  unfolding put_glossary
  glossary_kept entries = record {
    tracks_keyed = sound.tracks_keyed;
    translations_keyed = sound.translations_keyed;
    linked = sound.linked;
    settled = sound.settled;
  }

  -- A request keeps the tables sound when what its transaction writes is.
  kept {ℓ κ μ} :
      {C : Type ℓ} {T : Type κ} {A : Type μ} (rethrow : LocalizationError → LocalizationError)
      (write : T → Store → Store) (fault : Option LocalizationError)
      (checks : Result LocalizationError C)
      (outcome : C → Result LocalizationError (T × LocalizationAudit × A))
      → ((c : C) (tables : T) (entry : LocalizationAudit) (answer : A)
          → outcome c ≡ ok (tables, entry, answer)
          → IsSound (write tables store))
      → IsSound (checked store checks λ c. commit rethrow write fault store (outcome c)).0
  kept rethrow write fault checks outcome written =
      checked-keeps IsSound store checks _
        (λ c.
          commit-keeps IsSound rethrow write fault store (outcome c)
            (λ tables entry answer e. audited _ entry (written c tables entry answer e)) sound)
        sound

  run_edit-IsSound :
      (env : EditEnv) (context : AccessContext) (project track id : String) (input : Edit)
      → IsSound (run_edit env context project track id input store)
  unfolding run_edit update_scene select_scene_revision update_source_dialogue
      select_source_revision update_translation select_translation_revision update_translation_state
      create_glossary_entry update_glossary_entry select_glossary_revision
  run_edit-IsSound env context project track id (scene_edit input) =
      kept _ put_scenes env.fault _ _ (λ _ scenes _ _ _. scenes_kept scenes)
  run_edit-IsSound env context project track id (scene_choice input) =
      kept _ put_scenes env.fault _ _ (λ _ scenes _ _ _. scenes_kept scenes)
  run_edit-IsSound env context project track id (source_edit input) =
      kept _ put_sources env.fault _ _ (λ text _ _ _ e.
        edit_source-IsSound context store sound env project track id text input.expected_revision e)
  run_edit-IsSound env context project track id (source_choice input) =
      kept _ put_sources env.fault _ _
        (λ _ _ _ _ e. choose_source-IsSound context store sound project track id input e)
  run_edit-IsSound env context project track id (translation_edit translation input) =
      kept _ put_translations env.fault _ _ (λ text rows _ _ e. put-IsSound store rows sound (
        edit_translation-AreSound context project track id store sound env translation text
          input.expected_revision e))
  run_edit-IsSound env context project track id (translation_choice input) =
      kept _ put_translations env.fault _ _ (λ _ rows _ _ e.
        put-IsSound store rows sound
          (choose_translation-AreSound context project track id store sound input e))
  run_edit-IsSound env context project track id (state_change input) =
      kept _ put_translations env.fault _ _ (λ _ rows _ _ e.
        put-IsSound store rows sound
          (change_state-AreSound context project track id store sound input e))
  run_edit-IsSound env context project track id (term_creation input) =
      kept _ put_glossary env.fault _ _ (λ _ entries _ _ _. glossary_kept entries)
  run_edit-IsSound env context project track id (term_edit input) =
      kept _ put_glossary env.fault _ _ (λ _ entries _ _ _. glossary_kept entries)
  run_edit-IsSound env context project track id (term_choice input) =
      kept _ put_glossary env.fault _ _ (λ _ entries _ _ _. glossary_kept entries)

run_request-IsSound :
    (store : Store) (request : Request) → IsSound store → IsSound (run_request store request)
unfolding run_request
run_request-IsSound store (edit env context project track id input) sound =
    run_edit-IsSound store sound env context project track id input
run_request-IsSound store (track_attempt env context project input catalog fault) sound =
    go fault (create_track_transaction env context project input catalog store) refl
  where
    go :
        (fault : Option LocalizationError) (r : Result LocalizationError (Store × TrackResponse))
        → create_track_transaction env context project input catalog store ≡ r
        → IsSound (after_attempt store (run_attempt fault r))
    go fault (err e) h = unfold run_attempt after_attempt in sound
    go none (ok done) h =
        unfold run_attempt after_attempt in
        create_track_transaction-IsSound env context project input catalog store h sound
    go (some e) (ok done) h = unfold run_attempt after_attempt in sound

-- In review or approved means of the active source: whatever sequence of requests runs - edits and
-- selections of scenes, source texts, translations and glossary entries, changes of a translation's
-- state, and attempts to create a track, by anyone and with any outcome - if before it every translation
-- in review or approved was made from the active source revision of its dialogue (and the keys of tracks
-- and translations are unique, and a translation has its track's scope), the same is so after it.
pub run_requests-IsSound :
    (requests : List Request) (store : Store)
    → IsSound store
    → IsSound (run_requests requests store)
unfolding run_requests
run_requests-IsSound requests store sound =
    foldl-keeps IsSound run_request run_request-IsSound requests store sound
