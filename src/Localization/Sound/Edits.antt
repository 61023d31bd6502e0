-- ===== src/Localization/Sound/Edits.antt =====
-- What an edit or a selection of a translation keeps.
use voice_verse_ai.Common.{
  ℕ, ◌≡◌, refl, subst, ap, String, Bool, inl, inr, none, some, List, ◌++◌, ◌∷◌, [], str_eq, Option,
  ◌==◌, ok, >>=-eq-ok, ok-injective, All, All-map, All-append, Bool-cases, Option-cases,
}
use voice_verse_ai.Ingest.Types.{AccessContext}
use voice_verse_ai.Ingest.Tables.{find, update}
use voice_verse_ai.Ingest.Create.{is_some}
use voice_verse_ai.Localization.Types.{
  Revision, DialogueTranslation, TranslationContent, draft, LocalizationAudit, LocalizationTrack,
  Store,
}
use voice_verse_ai.Localization.Versions.{reselect, add_revision}
use voice_verse_ai.Localization.Access.{EditEnv, is_owned_track, scope_of}
use voice_verse_ai.Localization.Translation.{
  TranslationRevisionResponse, new_translation, has_translation_id, ensure_translation,
  create_selection, put_translations,
}
use voice_verse_ai.Localization.Translation.Edit.{
  activate_translation, translation_revision, write_translation,
}
use voice_verse_ai.Localization.Keyed.{
  find-append_left, find-All, All-update, if-cases, AreKeyed, AreKeyed-update, AreKeyed-append,
}
use voice_verse_ai.Localization.Settled.{IsSettled, reselect-state}
use voice_verse_ai.Localization.Writes.{add_revision-eq, cas_selection-eq, scope_of-track}
use voice_verse_ai.Localization.Sound.{IsLinked, IsSound, track_key, translation_key}

-- The table of translations is as the sound tables require.
pub record AreSound (store : Store) (rows : List DialogueTranslation) : Type 0 where
  pub keyed : AreKeyed translation_key rows
  pub linked : All (IsLinked store.tracks) rows
  pub settled : All (IsSettled store.dialogues) rows

module _ (store : Store) where
  pub AreSound-of : IsSound store → AreSound store store.translations
  AreSound-of sound = record {
    keyed = sound.translations_keyed;
    linked = sound.linked;
    settled = sound.settled;
  }

  pub put-IsSound :
      (rows : List DialogueTranslation)
      → IsSound store
      → AreSound store rows
      → IsSound (put_translations rows store)
  unfolding put_translations
  put-IsSound rows sound are = record {
    tracks_keyed = sound.tracks_keyed;
    translations_keyed = are.keyed;
    linked = are.linked;
    settled = are.settled;
  }

  pub update-AreSound :
      (q : DialogueTranslation → Bool) (f : DialogueTranslation → DialogueTranslation)
      (rows : List DialogueTranslation)
      → ((t : DialogueTranslation) → translation_key (f t) ≡ translation_key t)
      → ((t : DialogueTranslation) → IsLinked store.tracks t → IsLinked store.tracks (f t))
      → ((t : DialogueTranslation) → IsSettled store.dialogues t → IsSettled store.dialogues (f t))
      → AreSound store rows
      → AreSound store (update q f rows)
  update-AreSound q f rows keeps links settles are = record {
    keyed = AreKeyed-update translation_key q f rows keeps are.keyed;
    linked = All-update _ q f rows (
        All-map (λ t h. if-cases (IsLinked store.tracks) _ (f t) t (λ _. links t h) (λ _. h)) rows
          are.linked);
    settled = All-update _ q f rows (
        All-map (λ t h. if-cases (IsSettled _) _ (f t) t (λ _. settles t h) (λ _. h)) rows
          are.settled);
  }

  -- A new selection is a draft.
  pub reselect-AreSound :
      (q : DialogueTranslation → Bool) (user_id revision_id : String)
      (rows : List DialogueTranslation)
      → AreSound store rows
      → AreSound store (update q (reselect user_id revision_id draft) rows)
  unfolding reselect
  reselect-AreSound q user_id revision_id rows =
      update-AreSound q (reselect user_id revision_id draft) rows (λ _. refl) (λ _ h. h)
        (λ t _ s e reviewed. absurd (reviewed (reselect-state user_id revision_id draft t e)))

  create_selection-AreSound :
      (context : AccessContext) (id revision_id : String) (rows rows' : List DialogueTranslation)
      → create_selection context id revision_id rows ≡ ok rows'
      → AreSound store rows
      → AreSound store rows'
  unfolding create_selection
  create_selection-AreSound context id revision_id rows rows' h are =
      elim (Option-cases (find (has_translation_id id) rows)) [
        | inl e ↦ cc (rw (e, create_selection) at h)
        | inr (t, e) ↦ elim (Bool-cases (is_some t.selection)) [
          | inl u ↦ cc (rw (e, create_selection, u) at h)
          | inr u ↦ subst (AreSound store) (ok-injective (rw (e, create_selection, u) at h)) (
              update-AreSound _ _ rows (λ _. refl) (λ _ k. k)
                (λ t' _ s chosen reviewed. absurd (reviewed (cc chosen))) are)
        ]
      ]

  pub activate_translation-AreSound :
      (context : AccessContext) (project_id track_id id : String) (expected : ℕ)
      (revision_id : String) (rows rows' : List DialogueTranslation)
      → activate_translation context project_id track_id id expected revision_id rows ≡ ok rows'
      → AreSound store rows
      → AreSound store rows'
  unfolding activate_translation
  activate_translation-AreSound context project_id track_id id expected revision_id rows rows' h
        are =
      elim (Bool-cases (expected == 0)) [
        | inl e ↦
            create_selection-AreSound context id revision_id rows rows'
              (rw (e, activate_translation) at h) are
        | inr e ↦
            subst (AreSound store)
              (cas_selection-eq _ expected _ rows (rw (e, activate_translation) at h)).1
              (reselect-AreSound _ context.user_id revision_id rows are)
      ]

  add_revision-AreSound :
      (id : String) (revision : Revision TranslationContent) (rows rows' : List DialogueTranslation)
      → add_revision id revision rows ≡ ok rows'
      → AreSound store rows
      → AreSound store rows'
  add_revision-AreSound id revision rows rows' h are =
      subst (AreSound store) (add_revision-eq id revision rows h).1 (
        update-AreSound _ _ rows (λ _. refl) (λ _ k. k)
          (λ t settled s e reviewed.
            let (d, r, found, selected, same) = settled s e reviewed in
            (d, r, found, find-append_left _ t.revisions (revision ∷ []) selected, same))
          are)

  pub write_translation-AreSound :
      (env : EditEnv) (context : AccessContext) (project_id source_id text : String) (expected : ℕ)
      (t : DialogueTranslation) (rows : List DialogueTranslation) {rows' : List DialogueTranslation}
      {entry : LocalizationAudit} {answer : TranslationRevisionResponse}
      → write_translation env context project_id source_id text expected (t, rows)
        ≡ ok (rows', entry, answer)
      → AreSound store rows
      → AreSound store rows'
  unfolding write_translation
  write_translation-AreSound env context project_id source_id text expected t rows {rows'} h are =
      let (added, adds, rest) =
        >>=-eq-ok (add_revision t.id (translation_revision env context source_id text t) rows) _
          h in
      let (chosen, chooses, done) =
        >>=-eq-ok
          (activate_translation context project_id t.owner.track_id t.id expected env.revision_id
            added)
          _ rest in
      let same : chosen ≡ rows' =
        ap (λ (x : List DialogueTranslation × LocalizationAudit × TranslationRevisionResponse). x.0)
          (ok-injective done) in
      subst (AreSound store) same (
        activate_translation-AreSound context project_id t.owner.track_id t.id expected
          env.revision_id added chosen chooses (add_revision-AreSound t.id _ rows added adds are))

  -- The row of a new translation is linked to the track of the request.
  insert-AreSound :
      (context : AccessContext) (project_id track_id dialogue_id id : String)
      (track : LocalizationTrack)
      → IsSound store
      → find (is_owned_track context project_id track_id) store.tracks ≡ some track
      → find (has_translation_id id) store.translations ≡ none
      → AreSound store (
          store.translations
          ++ new_translation context (scope_of context project_id track) id track_id dialogue_id
            ∷ [])
  unfolding new_translation
  insert-AreSound context project_id track_id dialogue_id id track sound found fresh =
      let (scope, at) = scope_of-track context project_id track_id store found in
      let row =
        new_translation context (scope_of context project_id track) id track_id dialogue_id in
      let keyed : find (λ x. str_eq (track_key x) track.id) store.tracks ≡ some track =
        find-All (λ x. find (λ y. str_eq (track_key y) (track_key x)) store.tracks ≡ some x) _
          store.tracks sound.tracks_keyed found in
      record {
        keyed =
            AreKeyed-append translation_key store.translations row fresh sound.translations_keyed;
        linked = All-append (IsLinked store.tracks) store.translations (row ∷ []) sound.linked (
          (
            track,
            subst (λ k. find (λ x. str_eq (track_key x) k) store.tracks ≡ some track) at keyed,
            scope,
          ),
          tt,
        );
        settled =
            All-append (IsSettled store.dialogues) store.translations (row ∷ []) sound.settled
              ((λ s e reviewed. cc e), tt);
      }

  pub ensure_translation-AreSound :
      (context : AccessContext) (project_id track_id dialogue_id id : String)
      (track : LocalizationTrack)
      → IsSound store
      → find (is_owned_track context project_id track_id) store.tracks ≡ some track
      → (o : Option DialogueTranslation) {t : DialogueTranslation} {rows : List DialogueTranslation}
      → ensure_translation
          (new_translation context (scope_of context project_id track) id track_id dialogue_id)
          o
          store.translations
        ≡ ok (t, rows)
      → AreSound store rows
  unfolding ensure_translation new_translation scope_of is_some
  ensure_translation-AreSound context project_id track_id dialogue_id id track sound found (some t')
        h =
      subst (AreSound store)
        (ap (λ (x : DialogueTranslation × List DialogueTranslation). x.1) (ok-injective h))
        (AreSound-of sound)
  ensure_translation-AreSound context project_id track_id dialogue_id id track sound found none h =
      elim (Option-cases (find (has_translation_id id) store.translations)) [
        | inr (_, e) ↦ cc (rw (e, is_some) at h)
        | inl e ↦
            subst (AreSound store)
              (ap (λ (x : DialogueTranslation × List DialogueTranslation). x.1)
                (ok-injective (rw (e, is_some) at h)))
              (insert-AreSound context project_id track_id dialogue_id id track sound found e)
      ]
