-- ===== src/Localization/Values/Shape.antt =====
-- The text of an id that is a digest.
use Prim.Native.Char.{code}
use Prim.Native.String.{[] as str_nil, ◌∷◌ as str_cons, ◌++◌ as str_append}
use Prim.Native.String.append.{nil, cons}
use voice_verse_ai.Common.{
  ℕ, zero, suc, ◌+◌, ◌/◌, ◌%◌, ◌<◌, ◌≡◌, refl, ◌∙◌, ap, subst, String, Bool, true, false, ◌&&◌,
  ◌||◌, List, [], ◌∷◌, ◌++◌, leb, ltb, ◌==◌, if◌then◌else◌, arith,
}
use voice_verse_ai.Common.Text.{digit, join}
use voice_verse_ai.Uuid.{byte_at}
use voice_verse_ai.Ingest.Patterns.{
  codes, is_digit, is_hex, fits, times, uuid_classes, matches_uuid,
}
use voice_verse_ai.Localization.Values.{hex_text, bytes_text, deterministic_localization_uuid}

codes-append : (s t : String) → codes (str_append s t) ≡ codes s ++ codes t
codes-append str_nil t = λ i. codes (nil t i)
codes-append (str_cons c s) t =
    (λ i. codes (cons c s t i)) ∙ ap (λ cs. code c ∷ cs) (codes-append s t)

fits-append :
    (ps qs : List (ℕ → Bool)) (cs ds : List ℕ)
    → fits ps cs ≡ true
    → fits (ps ++ qs) (cs ++ ds) ≡ fits qs ds
unfolding fits
fits-append [] qs [] ds h = refl
fits-append [] qs (c ∷ cs) ds h = cc h
fits-append (p ∷ ps) qs [] ds h = cc h
fits-append (p ∷ ps) qs (c ∷ cs) ds h = ground (arith, fits-append ps qs cs ds)

-- A text of one digit.
abbrev IsDigitText : String → Type 0
IsDigitText s = fits (is_hex ∷ []) (codes s) ≡ true

digit-IsDigitText : (d : ℕ) → IsDigitText (digit d)
unfolding digit is_hex is_digit fits
digit-IsDigitText zero = refl
digit-IsDigitText (suc zero) = refl
digit-IsDigitText (suc (suc zero)) = refl
digit-IsDigitText (suc (suc (suc zero))) = refl
digit-IsDigitText (suc (suc (suc (suc zero)))) = refl
digit-IsDigitText (suc (suc (suc (suc (suc zero))))) = refl
digit-IsDigitText (suc (suc (suc (suc (suc (suc zero)))))) = refl
digit-IsDigitText (suc (suc (suc (suc (suc (suc (suc zero))))))) = refl
digit-IsDigitText (suc (suc (suc (suc (suc (suc (suc (suc zero)))))))) = refl
digit-IsDigitText (suc (suc (suc (suc (suc (suc (suc (suc (suc d))))))))) = refl

either :
    (b : Bool) (s t : String) → IsDigitText s → IsDigitText t → IsDigitText (if b then s else t)
either true s t h k = h
either false s t h k = k

hex_text-IsDigitText : (d : ℕ) → IsDigitText (hex_text d)
unfolding hex_text is_hex is_digit fits
hex_text-IsDigitText d = either (ltb d 10) _ _ (digit-IsDigitText d) (
    either (d == 10) _ _ refl (
      either (d == 11) _ _ refl
        (either (d == 12) _ _ refl (either (d == 13) _ _ refl (either (d == 14) _ _ refl refl)))))

-- Two digits for each byte.
unfoldable hexes : List ℕ → List (ℕ → Bool)
hexes [] = []
hexes (b ∷ bs) = is_hex ∷ is_hex ∷ hexes bs

-- What is left of the classes and of the text after a part that fits.
fits-text :
    (ps qs : List (ℕ → Bool)) (s t : String)
    → fits ps (codes s) ≡ true
    → fits (ps ++ qs) (codes (str_append s t)) ≡ fits qs (codes t)
fits-text ps qs s t h =
    ap (fits (ps ++ qs)) (codes-append s t) ∙ fits-append ps qs (codes s) (codes t) h

bytes_text-fits : (bs : List ℕ) → fits (hexes bs) (codes (bytes_text bs)) ≡ true
unfolding hexes bytes_text fits
bytes_text-fits [] = refl
bytes_text-fits (b ∷ bs) =
    fits-text (is_hex ∷ []) (is_hex ∷ hexes bs) (hex_text (b / 16)) _
      (hex_text-IsDigitText (b / 16))
    ∙ fits-text (is_hex ∷ []) (hexes bs) (hex_text (b % 16)) _ (hex_text-IsDigitText (b % 16))
    ∙ bytes_text-fits bs

-- A byte whose first digit passes `p`.
headed-fits :
    (p : ℕ → Bool) (b : ℕ) (bs : List ℕ)
    → fits (p ∷ []) (codes (hex_text (b / 16))) ≡ true
    → fits (p ∷ is_hex ∷ hexes bs) (codes (bytes_text (b ∷ bs))) ≡ true
unfolding hexes bytes_text fits
headed-fits p b bs h =
    fits-text (p ∷ []) (is_hex ∷ hexes bs) (hex_text (b / 16)) _ h
    ∙ fits-text (is_hex ∷ []) (hexes bs) (hex_text (b % 16)) _ (hex_text-IsDigitText (b % 16))
    ∙ bytes_text-fits bs

abbrev is_dash : ℕ → Bool
is_dash c = c == b'-'

abbrev is_version : ℕ → Bool
is_version c = leb b'1' c && leb c b'8'

abbrev is_variant : ℕ → Bool
is_variant c = c == b'8' || c == b'9' || c == b'a' || c == b'b' || c == b'A' || c == b'B'

version-fits : (b : ℕ) → fits (is_version ∷ []) (codes (hex_text ((0x50 + b % 16) / 16))) ≡ true
unfolding fits hex_text digit
version-fits b =
    let five : 5 ≡ (0x50 + b % 16) / 16 = omega arith in
    subst (λ d. fits (is_version ∷ []) (codes (hex_text d)) ≡ true) five refl

variants : (n : ℕ) → n < 4 → fits (is_variant ∷ []) (codes (hex_text (8 + n))) ≡ true
unfolding fits hex_text digit
variants zero h = refl
variants (suc zero) h = refl
variants (suc (suc zero)) h = refl
variants (suc (suc (suc zero))) h = refl
variants (suc (suc (suc (suc n)))) h = absurd (omega arith)

variant-fits : (b : ℕ) → fits (is_variant ∷ []) (codes (hex_text ((0x80 + b % 64) / 16))) ≡ true
variant-fits b =
    let shifted : 8 + b % 64 / 16 ≡ (0x80 + b % 64) / 16 = omega arith in
    subst (λ d. fits (is_variant ∷ []) (codes (hex_text d)) ≡ true) shifted
      (variants (b % 64 / 16) (omega arith))

-- An id that is a digest is a UUID: for any bytes of the digest, the text has the form that the service
-- asks of an id, with a version from 1 to 8 and the RFC's variant.
pub deterministic_localization_uuid-matches_uuid :
    (sha256 : String → List ℕ) (identity : String)
    → matches_uuid (deterministic_localization_uuid sha256 identity) ≡ true
unfolding matches_uuid deterministic_localization_uuid join uuid_classes times hexes
deterministic_localization_uuid-matches_uuid sha256 identity =
    let byte : ℕ → ℕ = λ i. byte_at i (sha256 identity) in
    let g1 = byte 0 ∷ byte 1 ∷ byte 2 ∷ byte 3 ∷ [] in
    let g2 = byte 4 ∷ byte 5 ∷ [] in
    let g5 = byte 10 ∷ byte 11 ∷ byte 12 ∷ byte 13 ∷ byte 14 ∷ byte 15 ∷ [] in
    let g3 = (0x50 + byte 6 % 16) ∷ byte 7 ∷ [] in
    let g4 = (0x80 + byte 8 % 64) ∷ byte 9 ∷ [] in
    let t5 = str_append (bytes_text g5) "" in
    let t4 = str_append (bytes_text g4) (str_append "-" t5) in
    let t3 = str_append (bytes_text g3) (str_append "-" t4) in
    let t2 = str_append (bytes_text g2) (str_append "-" t3) in
    let p5 = hexes g5 in
    let p4 = is_variant ∷ is_hex ∷ is_hex ∷ is_hex ∷ is_dash ∷ p5 in
    let p3 = is_version ∷ is_hex ∷ is_hex ∷ is_hex ∷ is_dash ∷ p4 in
    let p2 = hexes g2 ++ is_dash ∷ p3 in
    fits-text (hexes g1) (is_dash ∷ p2) (bytes_text g1) (str_append "-" t2) (bytes_text-fits g1)
    ∙ fits-text (is_dash ∷ []) p2 "-" t2 dash
    ∙ fits-text (hexes g2) (is_dash ∷ p3) (bytes_text g2) (str_append "-" t3) (bytes_text-fits g2)
    ∙ fits-text (is_dash ∷ []) p3 "-" t3 dash
    ∙ fits-text (is_version ∷ is_hex ∷ is_hex ∷ is_hex ∷ []) (is_dash ∷ p4) (bytes_text g3)
        (str_append "-" t4)
        (headed-fits is_version (0x50 + byte 6 % 16) (byte 7 ∷ []) (version-fits (byte 6)))
    ∙ fits-text (is_dash ∷ []) p4 "-" t4 dash
    ∙ fits-text (is_variant ∷ is_hex ∷ is_hex ∷ is_hex ∷ []) (is_dash ∷ p5) (bytes_text g4)
        (str_append "-" t5)
        (headed-fits is_variant (0x80 + byte 8 % 64) (byte 9 ∷ []) (variant-fits (byte 8)))
    ∙ fits-text (is_dash ∷ []) p5 "-" t5 dash
    ∙ fits-text p5 [] (bytes_text g5) "" (bytes_text-fits g5)
    ∙ ended
  where
    dash : fits (is_dash ∷ []) (codes "-") ≡ true
    dash = unfold fits in refl

    ended : fits [] (codes "") ≡ true
    ended = unfold fits in refl
