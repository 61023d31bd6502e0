-- ===== src/Localization/History.antt =====
-- The revision histories of the localization service: their cursors and pages. The text of a cursor is
-- the JSON of an object in base64url; both directions are the platform's, and the argument `codec`.
use Prim.Native.String.{compare as compare_text}
use voice_verse_ai.Common.{
  ℕ, zero, suc, ◌+◌, String, Bool, true, false, not, ◌&&◌, ◌||◌, ltb, leb, ◌==◌, if◌then◌else◌,
  Option, none, some, List, [], ◌∷◌, map, length, last?, keep, str_eq, Ordering, compare, Result,
  ok, err, ◌>>=◌, ◌>>◌, throw_if,
}
use voice_verse_ai.Common.Sort.{Comparator, or_else, sort_by}
use voice_verse_ai.Common.Dict.{get}
use voice_verse_ai.Common.Take.{take}
use voice_verse_ai.Ingest.Types.{AccessContext}
use voice_verse_ai.Ingest.Patterns.{codes, is_letter, is_digit, all_of, matches_uuid}
use voice_verse_ai.Localization.Types.{
  Revision, Selection, LocalizationError, invalid_cursor, no_resource_column,
}
pub mod Lists
pub mod Cursors
pub mod Order
pub mod Walk
pub mod Translations
mod Tests

-- A value of the object: a non-negative integer, a text, or anything else.
pub data JsonValue : Type 0 where
  json_number : ℕ → JsonValue
  json_text : String → JsonValue
  json_other : JsonValue

-- `Buffer.from(JSON.stringify(value)).toString('base64url')`, and back: none where it throws or is not
-- an object.
pub record CursorCodec : Type 0 where
  pub encode : List (String × JsonValue) → String
  pub decode : String → Option (List (String × JsonValue))

pub record HistoryCursor : Type 0 where
  pub revision_number : ℕ
  pub id : String

-- `[A-Za-z0-9_-]`
unfoldable pub is_cursor_character : ℕ → Bool
unfolding is_letter is_digit
is_cursor_character c = is_letter c || is_digit c || c == b'_' || c == b'-'

-- `historyCursorPattern.test(value)`
unfoldable pub matches_cursor : String → Bool
unfolding all_of is_cursor_character
matches_cursor value = not (length (codes value) == 0) && all_of is_cursor_character (codes value)

unfoldable pub decode_cursor :
    CursorCodec → String → Result LocalizationError (List (String × JsonValue))
decode_cursor codec value =
    if matches_cursor value
    then elim (codec.decode value) [ none ↦ err invalid_cursor | some fields ↦ ok fields ]
    else err invalid_cursor

unfoldable pub is_number : ℕ → Option JsonValue → Bool
is_number n (some (json_number m)) = m == n
is_number n _ = false

unfoldable pub is_text : String → Option JsonValue → Bool
is_text s (some (json_text t)) = str_eq t s
is_text s _ = false

-- The number of a revision, from 1.
unfoldable pub positive : Option JsonValue → Option ℕ
positive (some (json_number (suc n))) = some (suc n)
positive _ = none

unfoldable pub uuid_text : Option JsonValue → Option String
uuid_text (some (json_text t)) = if matches_uuid t then some t else none
uuid_text _ = none

unfoldable pub history_cursor_of : Option ℕ → Option String → Result LocalizationError HistoryCursor
history_cursor_of (some n) (some id) = ok (record { revision_number = n; id = id })
history_cursor_of _ _ = err invalid_cursor

unfoldable pub decode_history_cursor :
    CursorCodec → String → String → Result LocalizationError HistoryCursor
unfolding is_number is_text positive uuid_text history_cursor_of
decode_history_cursor codec value resource_id = do
  fields ← decode_cursor codec value
  throw_if
      (not (is_number 1 (get "version" fields) && is_text resource_id (get "resourceId" fields)))
      invalid_cursor
  history_cursor_of (positive (get "revisionNumber" fields)) (uuid_text (get "id" fields))

-- `lt` on ids, which are texts of one form.
unfoldable pub is_before : String → String → Bool
is_before a b = elim (compare_text a b) [ Ordering.lt ↦ true | _ ↦ false ]

-- `historyWhere`
unfoldable pub history_where {ℓ} : {P : Type ℓ} → Option HistoryCursor → Revision P → Bool
history_where none revision = true
history_where (some cursor) revision =
    ltb revision.revision_number cursor.revision_number
    || (is_before revision.id cursor.id && revision.revision_number == cursor.revision_number)

-- `orderBy: [{ revisionNumber: 'desc' }, { id: 'desc' }]`
unfoldable pub newest_first {ℓ} : {P : Type ℓ} → Comparator (Revision P)
unfolding or_else
newest_first a b = or_else (compare b.revision_number a.revision_number) (compare_text b.id a.id)

-- `findMany` of the rows behind the cursor, one more than the page holds.
unfoldable pub history_rows {ℓ} :
    {P : Type ℓ} → Option HistoryCursor → ℕ → List (Revision P) → List (Revision P)
history_rows cursor limit revisions =
    take (suc limit) (sort_by newest_first (keep (history_where cursor) revisions))

-- The loop over the keys.
unfoldable pub first_column : List String → List (String × String) → Result LocalizationError String
first_column [] columns = err no_resource_column
first_column (key ∷ keys) columns =
    let rest = first_column keys columns in elim (get key columns) [ none ↦ rest | some id ↦ ok id ]

-- The first of the four columns that the row has.
unfoldable pub history_resource_id : List (String × String) → Result LocalizationError String
history_resource_id columns =
    first_column
      ("sceneId" ∷ "localizedDialogueId" ∷ "dialogueTranslationId" ∷ "glossaryEntryId" ∷ []) columns

pub record Page (R : Type 0) : Type 0 where
  pub rows : List R
  pub next_cursor : Option String
  pub selected_revision_id : Option String
  pub selection_revision : ℕ

unfoldable pub encode_history_cursor {ℓ} : {P : Type ℓ} → CursorCodec → String → Revision P → String
encode_history_cursor codec resource_id last = codec.encode (
    ("id", json_text last.id)
    ∷ ("resourceId", json_text resource_id)
    ∷ ("revisionNumber", json_number last.revision_number)
    ∷ ("version", json_number 1)
    ∷ [])

-- The cursor of the next page, where there is one and this page has a row.
unfoldable pub next_history_cursor {ℓ} :
    {P : Type ℓ}
    → CursorCodec
    → List (String × String)
    → Bool
    → Option (Revision P)
    → Result LocalizationError (Option String)
next_history_cursor codec columns true (some last) =
    history_resource_id columns >>= λ id. ok (some (encode_history_cursor codec id last))
next_history_cursor codec columns has_more last = ok none

-- `selection` is the active revision's id, if any, and the selection's revision.
unfoldable pub history_response {ℓ} :
    {P : Type ℓ} {R : Type 0}
    → CursorCodec
    → List (String × String)
    → List (Revision P)
    → ℕ
    → Option String × ℕ
    → (Revision P → R)
    → Result LocalizationError (Page R)
history_response codec columns rows limit selection to_response = do
  cursor ← next_history_cursor codec columns (ltb limit (length rows)) (last? (take limit rows))
  ok (record {
    rows = map to_response (take limit rows);
    next_cursor = cursor;
    selected_revision_id = selection.0;
    selection_revision = selection.1;
  })

-- `query.cursor ? … : undefined`; an empty text is no cursor.
unfoldable pub query_cursor :
    CursorCodec → String → Option String → Result LocalizationError (Option HistoryCursor)
query_cursor codec resource_id none = ok none
query_cursor codec resource_id (some value) =
    if str_eq value ""
    then ok none
    else (decode_history_cursor codec value resource_id >>= λ cursor. ok (some cursor))

-- The page of a resource's history: what the four list methods do once they have the resource.
unfoldable pub history_page {ℓ} :
    {P : Type ℓ} {R : Type 0}
    → CursorCodec
    → String
    → List (String × String)
    → Option String
    → ℕ
    → List (Revision P)
    → Option String × ℕ
    → (Revision P → R)
    → Result LocalizationError (Page R)
history_page codec resource_id columns query limit revisions selection to_response = do
  cursor ← query_cursor codec resource_id query
  history_response codec columns (history_rows cursor limit revisions) limit selection to_response
