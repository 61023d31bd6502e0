-- ===== src/Uuid/Tests.antt =====
-- A run of the generator, and the theorem on its order at concrete calls.
use voice_verse_ai.Common.{◌≡◌, refl, List, [], ◌∷◌, some, arith}
use voice_verse_ai.Ingest.Patterns.{codes}
use voice_verse_ai.Uuid.{initial_clock, tick, uuidv7}
use voice_verse_ai.Uuid.Order.{Call, ticks, Ascends, prefix, uuids_ascend}

-- The second call finds the clock set back.
abbrev calls : List Call
calls =
    record { now = 1700000000000; seed = 65535; random = [] }
    ∷ record { now = 1600000000000; seed = 1; random = [] }
    ∷ []

text :
    (uuidv7 1700000000000 65535 (0 ∷ 0 ∷ 0 ∷ 0 ∷ 0 ∷ 0 ∷ 0 ∷ 0 ∷ 255 ∷ 171 ∷ []) initial_clock).1
    ≡ some (codes "018bcfe5-6800-7fff-bfab-000000000000")
unfolding uuidv7 initial_clock
text = refl

uuids_ascend_example : Ascends (prefix initial_clock []) (ticks calls initial_clock)
unfolding initial_clock ticks tick
uuids_ascend_example = uuids_ascend calls (omega arith, (omega arith, tt))
