-- ===== src/Localization/History/Cursors.antt =====
-- A cursor that a page gives, read again.
use text.Mathlib.TextPositions.{eq_refl}
use voice_verse_ai.Common.{
  ℕ, zero, suc, ◌<◌, ◌≡◌, refl, subst, String, true, inl, inr, some, List, [], ◌∷◌, str_eq, eq_iff,
  Bool-cases, ok, arith,
}
use voice_verse_ai.Common.Dict.{get}
use voice_verse_ai.Ingest.Patterns.{matches_uuid}
use voice_verse_ai.Localization.Types.{Revision}
use voice_verse_ai.Localization.History.{
  JsonValue, json_number, json_text, CursorCodec, HistoryCursor, matches_cursor, decode_cursor,
  is_number, is_text, positive, uuid_text, history_cursor_of, decode_history_cursor,
  encode_history_cursor, query_cursor,
}

-- The object of a cursor.
abbrev pub cursor_fields {ℓ} : {P : Type ℓ} → String → Revision P → List (String × JsonValue)
cursor_fields resource_id last =
    ("id", json_text last.id)
    ∷ ("resourceId", json_text resource_id)
    ∷ ("revisionNumber", json_number last.revision_number)
    ∷ ("version", json_number 1)
    ∷ []

-- The codec reads the revision's cursor back, and writes it in the alphabet of base64url. The revision
-- has an id and a number that a cursor may have.
abbrev pub HasCursor {ℓ} : {P : Type ℓ} → CursorCodec → String → Revision P → Type 0
HasCursor codec resource_id revision =
    (matches_cursor (codec.encode (cursor_fields resource_id revision)) ≡ true)
    × (codec.decode (codec.encode (cursor_fields resource_id revision))
        ≡ some (cursor_fields resource_id revision))
    × (matches_uuid revision.id ≡ true)
    × (0 < revision.revision_number)

abbrev pub cursor_of {ℓ} : {P : Type ℓ} → Revision P → HistoryCursor
cursor_of revision = record { revision_number = revision.revision_number; id = revision.id }

pub positive-number : (n : ℕ) → 0 < n → positive (some (json_number n)) ≡ some n
unfolding positive
positive-number zero h = absurd (omega arith)
positive-number (suc n) h = refl

blank : matches_cursor "" ≡ true → ⊥
unfolding matches_cursor
blank h = cc h

module _ {ℓ} {P : Type ℓ} (codec : CursorCodec) (resource_id : String) (revision : Revision P)
    (has : HasCursor codec resource_id revision) where
  pub decode_cursor-encode :
      decode_cursor codec (encode_history_cursor codec resource_id revision)
      ≡ ok (cursor_fields resource_id revision)
  unfolding decode_cursor encode_history_cursor
  decode_cursor-encode = rw (has.0, has.1) refl

  -- A cursor round trip: the cursor that a page gives for a revision of a resource is read, for the same
  -- resource, as that revision's number and id; for a revision with a UUID and a positive number, whose
  -- cursor's JSON the codec writes in its alphabet and reads back.
  pub decode_history_cursor-encode :
      decode_history_cursor codec (encode_history_cursor codec resource_id revision) resource_id
      ≡ ok (cursor_of revision)
  unfolding decode_history_cursor get is_number is_text uuid_text history_cursor_of
  decode_history_cursor-encode =
      rw
        (
          decode_cursor-encode,
          eq_refl resource_id,
          has.2,
          positive-number revision.revision_number has.3,
        )
        refl

  pub not_blank : str_eq (encode_history_cursor codec resource_id revision) "" ≡ true → ⊥
  unfolding encode_history_cursor
  not_blank e = blank (subst (λ v. matches_cursor v ≡ true) ((eq_iff _ "").0 e) has.0)

  pub query_cursor-encode :
      query_cursor codec resource_id (some (encode_history_cursor codec resource_id revision))
      ≡ ok (some (cursor_of revision))
  unfolding query_cursor
  query_cursor-encode =
      elim (Bool-cases (str_eq (encode_history_cursor codec resource_id revision) "")) [
        | inl e ↦ absurd (not_blank e)
        | inr e ↦ rw (e, query_cursor) (rw decode_history_cursor-encode refl)
      ]
