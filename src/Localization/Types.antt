-- ===== src/Localization/Types.antt =====
-- The rows and errors of the localization service. A revision and a selection stand in the row of the
-- resource that they belong to: the selection's key is its resource's, and both repeat its scope and
-- track by a composite foreign key. Times of creation are milliseconds, those of a dialogue microseconds.
use voice_verse_ai.Common.{ℕ, String, Bool, ◌&&◌, str_eq, Option, List}

-- The columns that every row of a workspace repeats.
pub record Scope : Type 0 where
  pub organization_id : String
  pub project_id : String
  pub workspace_id : String

unfoldable pub same_scope : Scope → Scope → Bool
same_scope a b =
    str_eq a.organization_id b.organization_id
    && str_eq a.project_id b.project_id
    && str_eq a.workspace_id b.workspace_id

-- A revision with its own columns in `content`.
pub record Revision {ℓ} (P : Type ℓ) : Type ℓ where
  pub id : String
  pub revision_number : ℕ
  pub created_by_user_id : String
  pub created_at : ℕ
  pub content : P

-- The active revision of a resource, with the columns of that selection table in `state`.
pub record Selection {ℓ} (X : Type ℓ) : Type ℓ where
  pub revision : ℕ
  pub selected_revision_id : String
  pub updated_by_user_id : String
  pub state : X

-- A resource with its other columns in `owner`.
pub record Resource {ℓ κ μ} (K : Type ℓ) (P : Type κ) (X : Type μ) : Type (ℓ ⊔ κ ⊔ μ) where
  pub id : String
  pub scope : Scope
  pub owner : K
  pub revisions : List (Revision P)
  pub selection : Option (Selection X)

pub record SceneOwner : Type 0 where
  pub ordinal : ℕ
  pub created_by_user_id : String

pub record SceneContent : Type 0 where
  pub start_time_us : ℕ
  pub end_time_us : ℕ
  pub title : Option String
  pub summary : Option String
  pub cultural_context : Option String

abbrev pub LocalizationScene : Type 0
LocalizationScene = Resource SceneOwner SceneContent (Unit {0})

pub record DialogueOwner : Type 0 where
  pub scene_id : String
  pub dialogue_segment_id : String
  pub speech_analysis_id : String
  pub sequence_number : ℕ
  pub start_time_us : ℕ
  pub end_time_us : ℕ
  pub created_by_user_id : String

-- The content of a source revision is its text.
abbrev pub LocalizedDialogue : Type 0
LocalizedDialogue = Resource DialogueOwner String (Unit {0})

pub data TranslationEditorState : Type 0 where
  draft in_review approved : TranslationEditorState

pub record TranslationOwner : Type 0 where
  pub track_id : String
  pub localized_dialogue_id : String
  pub created_by_user_id : String

pub record TranslationContent : Type 0 where
  pub source_dialogue_revision_id : String
  pub translated_text : String
  pub generation_id : Option String

abbrev pub DialogueTranslation : Type 0
DialogueTranslation = Resource TranslationOwner TranslationContent TranslationEditorState

pub record GlossaryOwner : Type 0 where
  pub track_id : String
  pub created_at : ℕ
  pub created_by_user_id : String

pub record NormalizedGlossaryInput : Type 0 where
  pub source_term : String
  pub normalized_source_term : String
  pub target_term : Option String
  pub notes : Option String
  pub case_sensitive : Bool
  pub do_not_translate : Bool

-- The columns under which an active entry is unique in its track.
pub record GlossaryKey : Type 0 where
  pub selected_normalized_source_term : String
  pub selected_case_sensitive : Bool

abbrev pub GlossaryEntry : Type 0
GlossaryEntry = Resource GlossaryOwner NormalizedGlossaryInput GlossaryKey

pub record LocalizationWorkspace : Type 0 where
  pub id : String
  pub organization_id : String
  pub project_id : String
  pub speech_analysis_id : String
  pub created_by_user_id : String

pub record LocalizationTrack : Type 0 where
  pub id : String
  pub scope : Scope
  pub target_language_id : String
  pub created_at : ℕ
  pub created_by_user_id : String

pub record LocalizationAudit : Type 0 where
  pub action : String
  pub actor_user_id : String
  pub organization_id : String
  pub resource_type : String
  pub resource_id : String

pub record Store : Type 0 where
  pub workspaces : List LocalizationWorkspace
  pub tracks : List LocalizationTrack
  pub scenes : List LocalizationScene
  pub dialogues : List LocalizedDialogue
  pub translations : List DialogueTranslation
  pub glossary : List GlossaryEntry
  pub audit : List LocalizationAudit

-- What the methods throw; the last three are the database's: a unique index (`P2002`), a write
-- conflict of serializable transactions (`P2034`), and any other failure.
pub data LocalizationError : Type 0 where
  role_cannot_edit : LocalizationError
  invalid_id : (resource : String) → LocalizationError
  job_not_found not_speech_analysis analysis_not_succeeded : LocalizationError
  analysis_not_committed same_language language_not_configured pinned_elsewhere : LocalizationError
  blank_segment segment_too_long no_segments project_not_found : LocalizationError
  track_not_found scene_not_found scene_revision_not_found dialogue_not_found : LocalizationError
  source_not_found source_revision_not_found : LocalizationError
  translation_not_found translation_revision_not_found : LocalizationError
  glossary_entry_not_found glossary_revision_not_found : LocalizationError
  selection_conflict no_scene_field edit_without_change already_active blank_text :
      LocalizationError
  invalid_transition active_source_changed : LocalizationError
  glossary_full blank_source_term target_term_required : LocalizationError
  target_term_forbidden glossary_term_used invalid_cursor : LocalizationError
  invalid_scene_cursor scene_without_revision : LocalizationError
  no_resource_column workspace_changed : LocalizationError
  invalid_idempotency_key generation_mismatch translation_disabled : LocalizationError
  scene_without_dialogue too_many_dialogues no_active_source : LocalizationError
  source_too_long too_many_terms timing_out_of_range : LocalizationError
  snapshot_too_large generation_not_found request_changed : LocalizationError
  unique_violation write_conflict database_failure : LocalizationError
