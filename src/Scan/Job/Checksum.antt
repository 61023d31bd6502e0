-- ===== src/Scan/Job/Checksum.antt =====
-- `checksumsMatch` of the scan worker, and its condition.
use Prim.Native.String.{String}
use voice_verse_ai.Common.{
  ℕ, ◌+◌, ◌-◌, ◌*◌, Bool, false, not, ◌&&◌, leb, if◌then◌else◌, Option, none, some, List, [], ◌∷◌,
}
use voice_verse_ai.Common.Text.{is_empty}
use voice_verse_ai.Ingest.Patterns.{codes}
use voice_verse_ai.Ingest.Checks.{codes_eq}

-- The value of a hexadecimal digit.
unfoldable pub hex_value : ℕ → Option ℕ
hex_value c =
    if leb b'0' c && leb c b'9'
    then some (c - b'0')
    else if leb b'a' c && leb c b'f'
    then some (c - b'a' + 10)
    else if leb b'A' c && leb c b'F'
    then some (c - b'A' + 10)
    else none

unfoldable pub byte_of : Option ℕ → Option ℕ → Option ℕ
byte_of (some high) (some low) = some (high * 16 + low)
byte_of _ _ = none

-- `Buffer.from(text, 'hex')`: the bytes before the first pair that is none.
unfoldable pub from_hex : List ℕ → List ℕ
unfolding hex_value byte_of
from_hex (c ∷ d ∷ cs) =
    let rest = from_hex cs in
    elim (byte_of (hex_value c) (hex_value d)) [ none ↦ [] | some byte ↦ byte ∷ rest ]
from_hex _ = []

unfoldable pub checksums_match : String → String → Bool
unfolding from_hex codes_eq
checksums_match expected actual = codes_eq (from_hex (codes expected)) (from_hex (codes actual))

-- `video.sha256 && !checksumsMatch(…)`
unfoldable pub has_mismatch : Option String → String → Bool
unfolding is_empty checksums_match
has_mismatch none actual = false
has_mismatch (some expected) actual =
    not (is_empty expected) && not (checksums_match expected actual)
