-- ===== src/Ingest/Patterns.antt =====
-- The regular expressions of the media ingest service, as tests on the characters' codes.
use Prim.Native.Char.{code}
use Prim.Native.String.{String}
use voice_verse_ai.Common.{
  ℕ, suc, zero, Bool, true, false, ◌&&◌, ◌||◌, ◌≡◌, refl, List, [], ◌∷◌, ◌++◌, length, leb, ◌==◌,
}

abbrev pub codes : String → List ℕ
codes String.[] = []
codes (String.◌∷◌ c s) = code c ∷ codes s

unfoldable pub is_digit : ℕ → Bool
is_digit c = leb b'0' c && leb c b'9'

unfoldable pub is_letter : ℕ → Bool
is_letter c = (leb b'a' c && leb c b'z') || (leb b'A' c && leb c b'Z')

-- `[0-9a-f]` without regard to case
unfoldable pub is_hex : ℕ → Bool
unfolding is_digit
is_hex c = is_digit c || (leb b'a' c && leb c b'f') || (leb b'A' c && leb c b'F')

-- One class of characters for each position, from the start to the end.
unfoldable pub fits : List (ℕ → Bool) → List ℕ → Bool
fits [] [] = true
fits [] (c ∷ cs) = false
fits (p ∷ ps) [] = false
fits (p ∷ ps) (c ∷ cs) = p c && fits ps cs

unfoldable pub times : ℕ → (ℕ → Bool) → List (ℕ → Bool)
times zero p = []
times (suc n) p = p ∷ times n p

unfoldable pub uuid_classes : List (ℕ → Bool)
unfolding times is_hex
uuid_classes =
    let dash : ℕ → Bool = λ c. c == b'-' in
    times 8 is_hex
    ++ dash ∷ times 4 is_hex
    ++ dash ∷ (λ c. leb b'1' c && leb c b'8') ∷ times 3 is_hex
    ++ dash
      ∷ (λ c. c == b'8' || c == b'9' || c == b'a' || c == b'b' || c == b'A' || c == b'B')
      ∷ times 3 is_hex
    ++ dash ∷ times 12 is_hex

-- `uuidPattern.test(value)`
unfoldable pub matches_uuid : String → Bool
unfolding uuid_classes fits
matches_uuid value = fits uuid_classes (codes value)

-- `[A-Za-z0-9._:-]`
unfoldable pub is_key_character : ℕ → Bool
unfolding is_letter is_digit
is_key_character c = is_letter c || is_digit c || c == b'.' || c == b'_' || c == b':' || c == b'-'

unfoldable pub all_of : (ℕ → Bool) → List ℕ → Bool
all_of p [] = true
all_of p (c ∷ cs) = p c && all_of p cs

unfoldable pub is_idempotency_key : List ℕ → Bool
unfolding is_letter is_digit is_key_character all_of
is_idempotency_key [] = false
is_idempotency_key (c ∷ cs) =
    (is_letter c || is_digit c)
    && leb 7 (length cs)
    && leb (length cs) 127
    && all_of is_key_character cs

-- `idempotencyPattern.test(value)`
unfoldable pub matches_idempotency : String → Bool
unfolding is_idempotency_key
matches_idempotency value = is_idempotency_key (codes value)

patterns :
    (matches_uuid "019f1a2b-3c4d-7e5f-8a6b-7c8d9e0f1a2b" ≡ true)
    × (matches_uuid "019f1a2b-3c4d-9e5f-8a6b-7c8d9e0f1a2b" ≡ false)
    × (matches_idempotency "upload:1" ≡ true)
    × (matches_idempotency "upload1" ≡ false)
unfolding matches_uuid matches_idempotency
patterns = (refl, refl, refl, refl)
