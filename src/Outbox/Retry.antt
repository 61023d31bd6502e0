-- ===== src/Outbox/Retry.antt =====
-- The delay before a failed publication is tried again.
use native.Mathlib.Nat.{pow-le-pow_right}
use voice_verse_ai.Common.{ℕ, ◌^◌, ◌≤◌, ◌<◌, min, arith}
use voice_verse_ai.Outbox.{delay_seconds}

-- The delay never shrinks from one failure to a later one, is at least ten seconds from the first
-- failure on, and is at most five minutes.
pub delay_seconds_lem :
    (attempt later : ℕ)
    → 0 < attempt
    → attempt ≤ later
    → (delay_seconds attempt ≤ delay_seconds later)
      × (10 ≤ delay_seconds attempt)
      × (delay_seconds later ≤ 300)
unfolding delay_seconds
delay_seconds_lem attempt later some_failed h =
    let low : 2 ^ 1 ≤ 2 ^ min attempt 6 =
      pow-le-pow_right (omega arith) {i = 1} {j = min attempt 6} (omega arith) in
    let grows : 2 ^ min attempt 6 ≤ 2 ^ min later 6 =
      pow-le-pow_right (omega arith) {i = min attempt 6} {j = min later 6} (omega arith) in
    (omega (arith, grows), omega (arith, low), omega arith)
