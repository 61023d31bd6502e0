-- ===== src/Localization/Sound.antt =====
-- The tables of a workspace between requests: keys and foreign keys that the database upholds, and the
-- reviewed translations.
use voice_verse_ai.Common.{◌≡◌, some, String, List, str_eq, All}
use voice_verse_ai.Ingest.Tables.{find}
use voice_verse_ai.Localization.Types.{LocalizationTrack, DialogueTranslation, Store}
use voice_verse_ai.Localization.Keyed.{AreKeyed}
use voice_verse_ai.Localization.Settled.{IsSettled}
pub mod Sources
pub mod Edits
pub mod Reviews
pub mod Tracks
pub mod Requests

abbrev pub track_key : LocalizationTrack → String
track_key track = track.id

abbrev pub translation_key : DialogueTranslation → String
translation_key translation = translation.id

-- The track of the translation is there, in its scope.
abbrev pub IsLinked : List LocalizationTrack → DialogueTranslation → Type 0
IsLinked tracks t =
    (track : LocalizationTrack) × (find (λ x. str_eq (track_key x) t.owner.track_id) tracks
      ≡ some track)
    × (t.scope ≡ track.scope)

-- Primary keys, the foreign key to the track, and that what is in review or approved is of the active
-- source of its dialogue.
pub record IsSound (store : Store) : Type 0 where
  pub tracks_keyed : AreKeyed track_key store.tracks
  pub translations_keyed : AreKeyed translation_key store.translations
  pub linked : All (IsLinked store.tracks) store.translations
  pub settled : All (IsSettled store.dialogues) store.translations
