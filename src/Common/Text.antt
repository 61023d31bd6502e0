-- ===== src/Common/Text.antt =====
-- What the code uses of the language's strings: `trim`, `join('')`, `String(n)`, `padStart`.
use Prim.Native.Char.{code}
use Prim.Native.String
use Prim.Native.String.{String, [], ◌∷◌}
use Prim.Native.Nat.{ℕ, zero, suc, ◌-◌, ◌/◌, ◌%◌}
use mathlib.Core.Bool.{Bool, true, false, ◌&&◌, ◌||◌}
use mathlib.Core.List.{List}
use mathlib.Core.Path.{◌≡◌, refl}
use voice_verse_ai.Common.Tests.{if◌then◌else◌, leb, ltb, ◌==◌}

-- The white space and line terminators that `trim` removes.
unfoldable pub is_space : ℕ → Bool
is_space c =
    (leb 9 c && leb c 13)
    || c == 32
    || c == 160
    || c == 0x1680
    || (leb 0x2000 c && leb c 0x200a)
    || c == 0x2028
    || c == 0x2029
    || c == 0x202f
    || c == 0x205f
    || c == 0x3000
    || c == 0xfeff

unfoldable pub is_empty : String → Bool
is_empty [] = true
is_empty (c ∷ s) = false

unfoldable pub trim_start : String → String
unfolding is_space
trim_start [] = []
trim_start (c ∷ s) = let rest = trim_start s in if is_space (code c) then rest else c ∷ s

unfoldable pub trim_end : String → String
unfolding is_space is_empty
trim_end [] = []
trim_end (c ∷ s) =
    let rest = trim_end s in if is_empty rest && is_space (code c) then [] else c ∷ rest

unfoldable pub trim : String → String
unfolding trim_start trim_end
trim s = trim_end (trim_start s)

unfoldable pub join : List String → String
join List.[] = []
join (List.◌∷◌ s ss) = String.◌++◌ s (join ss)

-- The digit `d` of 0 to 9.
unfoldable pub digit : ℕ → String
digit zero = "0"
digit (suc zero) = "1"
digit (suc (suc zero)) = "2"
digit (suc (suc (suc zero))) = "3"
digit (suc (suc (suc (suc zero)))) = "4"
digit (suc (suc (suc (suc (suc zero))))) = "5"
digit (suc (suc (suc (suc (suc (suc zero)))))) = "6"
digit (suc (suc (suc (suc (suc (suc (suc zero))))))) = "7"
digit (suc (suc (suc (suc (suc (suc (suc (suc zero)))))))) = "8"
digit _ = "9"

decimal_from : ℕ → ℕ → String → String
unfolding digit
decimal_from zero n out = out
decimal_from (suc fuel) n out =
    let out' = String.◌++◌ (digit (n % 10)) out in
    let rest = decimal_from fuel (n / 10) out' in if ltb n 10 then out' else rest

-- `String(n)` for a non-negative integer; `n + 1` rounds are enough, as each divides by ten.
unfoldable pub decimal : ℕ → String
unfolding decimal_from
decimal n = decimal_from (suc n) n ""

unfoldable pub repeat : ℕ → String → String
repeat zero s = ""
repeat (suc n) s = String.◌++◌ s (repeat n s)

-- `s.padStart(width, fill)` with one character to fill.
unfoldable pub pad_start : ℕ → String → String → String
unfolding repeat
pad_start width fill s = String.◌++◌ (repeat (width - String.count s) fill) s

text_tests : (trim " a b\n" ≡ "a b") × (pad_start 4 "0" (decimal 120) ≡ "0120") × (decimal 0 ≡ "0")
unfolding trim pad_start decimal
text_tests = (refl, refl, refl)
