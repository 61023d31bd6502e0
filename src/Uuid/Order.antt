-- ===== src/Uuid/Order.antt =====
-- The order of the UUIDs of one process.
use voice_verse_ai.Common.{ℕ, ◌+◌, ◌*◌, ◌<◌, ◌≡◌, List, [], ◌∷◌, All, arith}
use voice_verse_ai.Uuid.{Clock, initial_clock, tick, uuid_bytes}

-- The number that bytes make, the first being the most significant.
unfoldable pub big_endian : ℕ → List ℕ → ℕ
big_endian n [] = n
big_endian n (b ∷ bs) = big_endian (n * 256 + b) bs

unfoldable pub first_eight : List ℕ → List ℕ
first_eight (a ∷ b ∷ c ∷ d ∷ e ∷ f ∷ g ∷ h ∷ _) = a ∷ b ∷ c ∷ d ∷ e ∷ f ∷ g ∷ h ∷ []
first_eight _ = []

-- The time, the version and the sequence of a UUID, as one number.
abbrev pub prefix : Clock → List ℕ → ℕ
prefix clock random = big_endian 0 (first_eight (uuid_bytes clock random))

tick-lt :
    (now seed : ℕ) (clock : Clock)
    → clock.sequence < 4096
    → (clock.last_timestamp * 4096 + clock.sequence
        < (tick now seed clock).last_timestamp * 4096 + (tick now seed clock).sequence)
      × ((tick now seed clock).sequence < 4096)
unfolding tick
tick-lt now seed clock h = (ground arith, ground arith)

prefix-eq :
    (clock : Clock) (random : List ℕ)
    → clock.sequence < 4096
    → clock.last_timestamp < 281474976710656
    → prefix clock random ≡ clock.last_timestamp * 65536 + 28672 + clock.sequence
unfolding uuid_bytes big_endian first_eight
prefix-eq clock random h k = omega arith

-- A call, by the clock's time, the random number and the random bytes that it finds.
pub record Call : Type 0 where
  pub now : ℕ
  pub seed : ℕ
  pub random : List ℕ

-- The variables after each of the calls, one after the other, with the bytes that it drew.
unfoldable pub ticks : List Call → Clock → List (Clock × List ℕ)
ticks [] clock = []
ticks (call ∷ calls) clock =
    let next = tick call.now call.seed clock in (next, call.random) ∷ ticks calls next

abbrev pub InRange : Clock × List ℕ → Type 0
InRange made = made.0.last_timestamp < 281474976710656

-- Each number is less than the next.
abbrev pub Ascends : ℕ → List (Clock × List ℕ) → Type 0
Ascends previous [] = Unit
Ascends previous (made ∷ others) =
    (previous < prefix made.0 made.1) × Ascends (prefix made.0 made.1) others

Ascends-from :
    (calls : List Call) (clock : Clock) (random : List ℕ)
    → clock.sequence < 4096
    → clock.last_timestamp < 281474976710656
    → All InRange (ticks calls clock)
    → Ascends (prefix clock random) (ticks calls clock)
unfolding ticks
Ascends-from [] clock random h k r = tt
Ascends-from (call ∷ calls) clock random h k (within, others) =
    let (later, small) = tick-lt call.now call.seed clock h in
    let next = tick call.now call.seed clock in
    (
      omega (arith, prefix-eq clock random h k, prefix-eq next call.random small within),
      Ascends-from calls next call.random small within others,
    )

-- The UUIDs that a process makes, from its start, ascend strictly in their first eight bytes: the time,
-- the version and the sequence, whatever its clock shows and whatever is drawn, also where the clock
-- stands still or goes back and where the sequence overflows, as long as the times fit six bytes.
pub uuids_ascend :
    (calls : List Call)
    → All InRange (ticks calls initial_clock)
    → Ascends (prefix initial_clock []) (ticks calls initial_clock)
unfolding initial_clock
uuids_ascend calls within = Ascends-from calls initial_clock [] (omega arith) (omega arith) within
