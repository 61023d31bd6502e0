-- ===== src/Localization/Values.antt =====
-- `apps/api/src/modules/localization/application/localization-values.ts`: the normalization of editorial
-- text and the ids that are digests. NFC, `toLowerCase` and SHA-256 are the language's, and arguments.
use Prim.Native.Char.{code}
use Prim.Native.String.{[] as str_nil, ◌∷◌ as str_cons, ◌++◌ as str_append}
use voice_verse_ai.Common.{
  ℕ, ◌+◌, ◌/◌, ◌%◌, ltb, ◌==◌, String, Bool, true, false, not, ◌&&◌, if◌then◌else◌, Option, none,
  some, List, [], ◌∷◌, Result, ok, err,
}
use voice_verse_ai.Common.Text.{is_space, is_empty, trim, digit, join}
use voice_verse_ai.Uuid.{byte_at}
use voice_verse_ai.Localization.Types.{LocalizationError, blank_text}
pub mod Shape

-- `normalized || null`
unfoldable pub non_empty : String → Option String
unfolding is_empty
non_empty s = if is_empty s then none else some s

-- A missing value and a null are the same to the code.
unfoldable pub normalize_optional_editorial_text : (String → String) → Option String → Option String
unfolding non_empty trim
normalize_optional_editorial_text nfc none = none
normalize_optional_editorial_text nfc (some value) = non_empty (trim (nfc value))

unfoldable pub normalize_required_editorial_text :
    (String → String) → String → Result LocalizationError String
unfolding is_empty trim
normalize_required_editorial_text nfc value =
    let normalized = trim (nfc value) in
    if is_empty normalized then err blank_text else ok normalized

-- `replace(/\s+/gu, ' ')`: each run of white space becomes a space. `spaced` tells that the character
-- before was white space.
unfoldable pub collapse_spaces : Bool → String → String
unfolding is_space
collapse_spaces spaced str_nil = str_nil
collapse_spaces spaced (str_cons c s) =
    let rest = collapse_spaces (is_space (code c)) s in
    if is_space (code c) then (if spaced then rest else str_append " " rest) else str_cons c rest

unfoldable pub normalize_glossary_source_term : (String → String) → String → String
unfolding trim collapse_spaces
normalize_glossary_source_term nfc value = collapse_spaces false (trim (nfc value))

unfoldable pub glossary_comparison_key : (String → String) → String → Bool → String
glossary_comparison_key to_lower_case source_term case_sensitive =
    if case_sensitive then source_term else to_lower_case source_term

-- A digit of `toString('hex')`.
unfoldable pub hex_text : ℕ → String
unfolding digit
hex_text d =
    if ltb d 10
    then digit d
    else if d == 10
    then "a"
    else if d == 11
    then "b"
    else if d == 12
    then "c"
    else if d == 13
    then "d"
    else if d == 14
    then "e"
    else "f"

-- Two digits for each byte.
unfoldable pub bytes_text : List ℕ → String
bytes_text List.[] = ""
bytes_text (List.◌∷◌ b bs) =
    str_append (hex_text (b / 16)) (str_append (hex_text (b % 16)) (bytes_text bs))

-- The first sixteen bytes of the digest, with the version in the seventh and the variant in the ninth.
unfoldable pub deterministic_localization_uuid : (String → List ℕ) → String → String
deterministic_localization_uuid sha256 identity =
    let byte = λ (i : ℕ). byte_at i (sha256 identity) in
    join (
      bytes_text (byte 0 ∷ byte 1 ∷ byte 2 ∷ byte 3 ∷ [])
      ∷ "-"
      ∷ bytes_text (byte 4 ∷ byte 5 ∷ [])
      ∷ "-"
      ∷ bytes_text ((0x50 + byte 6 % 16) ∷ byte 7 ∷ [])
      ∷ "-"
      ∷ bytes_text ((0x80 + byte 8 % 64) ∷ byte 9 ∷ [])
      ∷ "-"
      ∷ bytes_text (byte 10 ∷ byte 11 ∷ byte 12 ∷ byte 13 ∷ byte 14 ∷ byte 15 ∷ [])
      ∷ [])
