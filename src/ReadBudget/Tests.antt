-- ===== src/ReadBudget/Tests.antt =====
-- The theorems on the read budget at concrete inputs.
use voice_verse_ai.Common.{◌≡◌, refl}
use voice_verse_ai.ReadBudget.{ReadBudget, new_read_budget, acquire, release}
use voice_verse_ai.ReadBudget.Bounds.{
  IsAccounted, started, acquired, released, reachable-IsAccounted, release_twice,
}

abbrev used : ReadBudget
used = (acquire 7 (release 0 (acquire 6 (new_read_budget 10)).0)).0

seven : used.admitted_bytes ≡ 7
unfolding acquire release new_read_budget
seven = refl

reachable-IsAccounted_example : IsAccounted 10 used
reachable-IsAccounted_example =
    reachable-IsAccounted 10 (acquired 7 (released 0 (acquired 6 started)))

release_twice_example : release 0 (release 0 used) ≡ release 0 used
release_twice_example = release_twice 0 used
