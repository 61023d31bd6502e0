-- ===== src/Localization/History/Tests.antt =====
-- The pages of a history of two revisions.
use voice_verse_ai.Common.{
  ◌≡◌, ◌≢◌, refl, String, none, some, [], ◌∷◌, ok, err, str_eq, if◌then◌else◌, arith, All,
}
use voice_verse_ai.Common.Dict.{get}
use voice_verse_ai.Common.Sort.{sort_by, insert_by, or_else}
use voice_verse_ai.Common.Take.{take}
use voice_verse_ai.Common.{eq_iff}
use voice_verse_ai.Ingest.Patterns.{matches_uuid}
use voice_verse_ai.Localization.Types.{
  Revision, DialogueTranslation, TranslationContent, draft, invalid_cursor,
}
use voice_verse_ai.Localization.History.{
  CursorCodec, matches_cursor, decode_history_cursor, encode_history_cursor, history_resource_id,
  first_column, is_text, history_rows, history_page, history_response, query_cursor,
  next_history_cursor, history_where, newest_first, Page,
}
use voice_verse_ai.Localization.History.Cursors.{
  HasCursor, cursor_fields, cursor_of, decode_history_cursor-encode,
}
use voice_verse_ai.Localization.History.Order.{IsIncreasing}
use voice_verse_ai.Localization.History.Walk.{read_pages, read_pages-all}
use voice_verse_ai.Localization.History.Lists.{
  translation_history, HistoryQuery, selection_or_none, editor_state_of,
}
use voice_verse_ai.Localization.History.Translations.{translation_history-second_page}
use voice_verse_ai.Localization.Translation.{
  to_translation_revision_response, TranslationRevisionResponse,
}

abbrev first : {P : Type 0} → P → Revision P
first content = record {
  id = "019f1a2b-3c4d-7e5f-8a6b-7c8d9e0f1a11";
  revision_number = 1;
  created_by_user_id = "user";
  created_at = 0;
  content = content;
}

abbrev second : {P : Type 0} → P → Revision P
second content = record {
  id = "019f1a2b-3c4d-7e5f-8a6b-7c8d9e0f1a12";
  revision_number = 2;
  created_by_user_id = "user";
  created_at = 1;
  content = content;
}

abbrev old_text : String
old_text = "Guten Tag."

abbrev new_text : String
new_text = "Guten Morgen."

abbrev dialogue_id : String
dialogue_id = "019f1a2b-3c4d-7e5f-8a6b-7c8d9e0f1a03"

-- A codec for the cursors of the two revisions of one dialogue.
abbrev codec : CursorCodec
codec = record {
  encode = λ fields. if is_text (first tt).id (get "id" fields) then "first" else "second";
  decode = λ value.
      if str_eq value "first"
      then some (cursor_fields dialogue_id (first tt))
      else some (cursor_fields dialogue_id (second tt));
}

first_cursor : {P : Type 0} (content : P) → HasCursor codec dialogue_id (first content)
unfolding is_text get matches_cursor matches_uuid
first_cursor content = (refl, refl, refl, omega arith)

second_cursor : {P : Type 0} (content : P) → HasCursor codec dialogue_id (second content)
unfolding is_text get matches_cursor matches_uuid
second_cursor content = (refl, refl, refl, omega arith)

decode_history_cursor-encode_example :
    decode_history_cursor codec
      (encode_history_cursor codec dialogue_id (second new_text))
      dialogue_id
    ≡ ok (cursor_of (second new_text))
decode_history_cursor-encode_example =
    decode_history_cursor-encode codec dialogue_id (second new_text) (second_cursor new_text)

named : history_resource_id (("localizedDialogueId", dialogue_id) ∷ []) ≡ ok dialogue_id
unfolding history_resource_id first_column get
named = refl

read_pages-all_example :
    read_pages codec dialogue_id
      (("localizedDialogueId", dialogue_id) ∷ [])
      1
      (first old_text ∷ second new_text ∷ [])
      (none, 0)
      (λ (r : Revision String). r.content)
      3
      none
    ≡ ok (new_text ∷ old_text ∷ [])
read_pages-all_example =
    let last : IsIncreasing (second new_text ∷ []) = (tt, tt) in
    let older : All (HasCursor codec dialogue_id) (second new_text ∷ []) =
      (second_cursor new_text, tt) in
    read_pages-all codec dialogue_id (("localizedDialogueId", dialogue_id) ∷ []) 1
      (first old_text ∷ second new_text ∷ []) (none, 0) (λ r. r.content) (omega arith) named
      ((omega arith, tt), last) (first_cursor old_text, older)

abbrev content : String → TranslationContent
content text = record {
  source_dialogue_revision_id = "source-1";
  translated_text = text;
  generation_id = none;
}

abbrev translation : DialogueTranslation
translation = record {
  id = "019f1a2b-3c4d-7e5f-8a6b-7c8d9e0f1a04";
  scope = record { organization_id = "org"; project_id = "project"; workspace_id = "workspace" };
  owner = record {
    track_id = "track";
    localized_dialogue_id = dialogue_id;
    created_by_user_id = "user";
  };
  revisions = first (content old_text) ∷ second (content new_text) ∷ [];
  selection = none;
}

-- The first page of one row, and its cursor.
abbrev first_page : Page TranslationRevisionResponse
first_page = record {
  rows = to_translation_revision_response translation (second (content new_text)) draft none ∷ [];
  next_cursor = some "second";
  selected_revision_id = none;
  selection_revision = 0;
}

abbrev first_query : HistoryQuery
first_query = record { cursor = none; limit = 1 }

asked : translation_history codec translation first_query ≡ ok first_page
unfolding translation_history history_page history_response query_cursor next_history_cursor
    history_resource_id first_column get selection_or_none editor_state_of history_rows
    history_where newest_first encode_history_cursor is_text sort_by insert_by or_else take
asked = refl

not_same : dialogue_id ≢ translation.id
not_same e = cc ((eq_iff dialogue_id translation.id).1 e)

translation_history-second_page_example :
    translation_history codec translation (record { cursor = some "second"; limit = 5 })
    ≡ err invalid_cursor
translation_history-second_page_example =
    let older : All (HasCursor codec dialogue_id) (second (content new_text) ∷ []) =
      (second_cursor (content new_text), tt) in
    translation_history-second_page codec translation first_query first_page "second" 5 not_same
      (first_cursor (content old_text), older) asked refl
