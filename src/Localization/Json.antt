-- ===== src/Localization/Json.antt =====
-- `stableJson` and `canonicalJsonHash` of `apps/api/src/modules/localization/application/
-- localization-values.ts`. The quotation of a text in JSON and SHA-256 are the platform's, and arguments.
use Prim.Native.String
use voice_verse_ai.Common.{ℕ, String, Bool, true, false, Option, none, some, List, [], ◌∷◌, map}
use voice_verse_ai.Common.Sort.{Comparator, sort_by}
use voice_verse_ai.Common.Text.{decimal}
use voice_verse_ai.Localization.Values.{bytes_text}

-- `CanonicalJson`; its numbers are natural here, as those of the snapshots are.
mutual
  pub data CanonicalJson : Type 0 where
    json_null : CanonicalJson
    json_boolean : Bool → CanonicalJson
    json_number : ℕ → CanonicalJson
    json_string : String → CanonicalJson
    json_array : Items → CanonicalJson
    json_object : Fields → CanonicalJson

  pub data Items : Type 0 where
    no_item : Items
    item : CanonicalJson → Items → Items

  pub data Fields : Type 0 where
    no_field : Fields
    field : String → CanonicalJson → Fields → Fields

-- The items with a comma between them.
unfoldable pub joined : List String → String
joined [] = ""
joined (x ∷ []) = x
joined (x ∷ y ∷ ys) = String.◌++◌ x (String.◌++◌ "," (joined (y ∷ ys)))

-- Keys in their order.
unfoldable pub by_key : Comparator (String × String)
by_key a b = String.compare a.0 b.0

unfoldable pub entry_text : (String → String) → String × String → String
entry_text quote entry = String.◌++◌ (quote entry.0) (String.◌++◌ ":" entry.1)

-- An object of the texts of its values, keys sorted.
unfoldable pub object_text : (String → String) → List (String × String) → String
unfolding joined by_key entry_text sort_by
object_text quote entries =
    String.◌++◌ "{" (String.◌++◌ (joined (map (entry_text quote) (sort_by by_key entries))) "}")

unfoldable mutual
  unfolding object_text joined

  pub stable_json : (String → String) → CanonicalJson → String
  stable_json quote json_null = "null"
  stable_json quote (json_boolean true) = "true"
  stable_json quote (json_boolean false) = "false"
  stable_json quote (json_number n) = decimal n
  stable_json quote (json_string s) = quote s
  stable_json quote (json_array items) =
      String.◌++◌ "[" (String.◌++◌ (joined (item_texts quote items)) "]")
  stable_json quote (json_object fields) = object_text quote (field_texts quote fields)

  pub item_texts : (String → String) → Items → List String
  item_texts quote no_item = []
  item_texts quote (item value items) = stable_json quote value ∷ item_texts quote items

  pub field_texts : (String → String) → Fields → List (String × String)
  field_texts quote no_field = []
  field_texts quote (field key value fields) =
      (key, stable_json quote value) ∷ field_texts quote fields

-- `createHash('sha256').update(…).digest('hex')`
unfoldable pub canonical_json_hash : (String → List ℕ) → (String → String) → CanonicalJson → String
unfolding stable_json bytes_text
canonical_json_hash sha256 quote value = bytes_text (sha256 (stable_json quote value))

-- `null` for a missing value.
unfoldable pub or_null {ℓ} : {A : Type ℓ} → (A → CanonicalJson) → Option A → CanonicalJson
or_null f none = json_null
or_null f (some a) = f a

unfoldable pub fields_of : List (String × CanonicalJson) → Fields
fields_of [] = no_field
fields_of ((key, value) ∷ entries) = field key value (fields_of entries)

abbrev pub object_of : List (String × CanonicalJson) → CanonicalJson
object_of entries = json_object (fields_of entries)

unfoldable pub items_of : List CanonicalJson → Items
items_of [] = no_item
items_of (value ∷ values) = item value (items_of values)
